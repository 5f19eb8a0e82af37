-- ===== src/Service/Ledger/Passwords.antt =====
-- internal/backend/hysteria2/backend.go, AddUser and RemoveUser: they are as the service needs them, for a
-- panel that gives different ids keys with different passwords.
use nde.Prelude.{
  ℕ, String, Bool, true, not, ◌||◌, ◌&&◌, none, some, [], ◌∷◌, ◌==◌, ◌≡◌, refl, arith, ap, ◌∙◌,
  number_key, text_key, is_some, ==_iff,
}
use nde.Prelude.Dict.{Dict, get, get-put, get-delete}
use nde.Models.{User, Inbound}
use nde.Backend.{Backends, Error}
use nde.Auth.{Packages, AuthAlgorithm, generate_password}
use nde.Service.{backend_by_tag}
use nde.Service.Ledger.{Ledger, covered}
use nde.Hysteria2.{contains_tag}
use nde.Hysteria2

module _ (P : Packages Error) (algo : AuthAlgorithm) where
  -- A node with hysteria2 alone, whose requests to kick users succeed.
  abbrev pub hysteria2_node : Backends
  hysteria2_node = record {
    World = Dict String User;
    range = λ w. "hysteria2" ∷ [];
    contains_tag = λ w name tag. contains_tag tag;
    add_user = λ w name u i. (none, Hysteria2.add_user P algo w u i);
    remove_user = λ w name u i. Hysteria2.remove_user P algo w u i none;
    get_usages = λ w name reset. (some [], w);
    ctx_err = λ w. none;
    wait = λ w delay. (none, w);
    with_timeout = λ w timeout. w;
    end_timeout = λ w. w;
  }

  module _ (key_of : ℕ → String)
      (apart : (a b : ℕ)
        → (generate_password P (key_of a) algo == generate_password P (key_of b) algo)
          ≡ (a == b)) where
    abbrev admits : Dict String User → ℕ → String → Bool
    admits w uid t = t == "hysteria2" && is_some (get (generate_password P (key_of uid) algo) w)

    pass_of :
        (u : User) (uid : ℕ)
        → (u.key == key_of u.id) ≡ true
        → (generate_password P u.key algo == generate_password P (key_of uid) algo) ≡ (u.id == uid)
    pass_of u uid listed =
        ap (λ k. generate_password P k algo == generate_password P (key_of uid) algo)
          ((==_iff u.key (key_of u.id)).0 listed)
        ∙ apart u.id uid

    admits-add_user :
        (w : Dict String User) (u : User) (i : Inbound) (uid : ℕ) (t : String)
        → contains_tag i.tag ≡ true
        → (u.key == key_of u.id) ≡ true
        → admits (Hysteria2.add_user P algo w u i) uid t
          ≡ (admits w uid t || (u.id == uid && i.tag == t))
    unfolding Hysteria2.add_user contains_tag
    admits-add_user w u i uid t here listed =
        rw (get-put (generate_password P u.key algo) (generate_password P (key_of uid) algo) u w) (
          ground (
            arith,
            pass_of u uid listed,
            ==_iff i.tag "hysteria2",
            ==_iff t "hysteria2",
            ==_iff i.tag t,
            here,
          ))

    admits-remove_user :
        (w : Dict String User) (u : User) (i : Inbound) (uid : ℕ) (t : String)
        → contains_tag i.tag ≡ true
        → (u.key == key_of u.id) ≡ true
        → admits (Hysteria2.remove_user P algo w u i none).1 uid t
          ≡ (admits w uid t && not (u.id == uid && i.tag == t))
    unfolding Hysteria2.remove_user contains_tag
    admits-remove_user w u i uid t here listed =
        rw (get-delete (generate_password P u.key algo) (generate_password P (key_of uid) algo) w) (
          ground (
            arith,
            pass_of u uid listed,
            ==_iff i.tag "hysteria2",
            ==_iff t "hysteria2",
            ==_iff i.tag t,
            here,
          ))

    pub hysteria2_ledger : Ledger hysteria2_node
    unfolding covered backend_by_tag
    hysteria2_ledger = record {
      lists = λ id name key. key == key_of id;
      has = admits;
      has-add_user = λ w name u i uid t here listed done. admits-add_user w u i uid t here listed;
      has-remove_user =
          λ w name u i uid t here listed done. admits-remove_user w u i uid t here listed;
      covered-add_user = λ w name u i t. refl;
      covered-remove_user = λ w name u i t. refl;
      has-wait = λ w delay uid t. refl;
      covered-wait = λ w delay t. refl;
      has-with_timeout = λ w timeout uid t. refl;
      covered-with_timeout = λ w timeout t. refl;
      has-end_timeout = λ w uid t. refl;
      covered-end_timeout = λ w t. refl;
    }
