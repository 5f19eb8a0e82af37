-- ===== src/Xray/Api/Account/Supported.antt =====
-- internal/backend/xray/api.go, buildAccount: every protocol that resolveInbounds accepts has
-- accounts.
use nde.Prelude.{String, true, ◌⊎◌, inl, inr, List, ℕ, ◌≡◌, refl, arith, text_key, ==_iff}
use nde.Backend.{Error}
use nde.Auth.{Packages, AuthAlgorithm, generate_uuid}
use nde.Text.{to_lower}
use nde.Xray.Config.Inbounds.{is_allowed}
use nde.Xray.Api.Account.{Account, with_id, build_account}

module _ (P : Packages Error) (sha256 : String → List ℕ) (algo : AuthAlgorithm) where
  -- The error of an account that cannot be made is the one of its UUID.
  abbrev pub OnlyUuidFails : String → Error ⊎ Account → Type 0
  OnlyUuidFails seed (inl e) = generate_uuid P seed algo ≡ inl e
  OnlyUuidFails seed (inr account) = Unit

  with_id-OnlyUuidFails :
      (seed : String) (make : String → Account) (id : Error ⊎ String)
      → generate_uuid P seed algo ≡ id
      → OnlyUuidFails seed (with_id id make)
  with_id-OnlyUuidFails seed make (inl e) h = h
  with_id-OnlyUuidFails seed make (inr id) h = tt

allowed_cases :
    (p : String)
    → is_allowed p ≡ true
    → (p ≡ "vmess")
      ⊎ ((p ≡ "vless") ⊎ ((p ≡ "trojan") ⊎ ((p ≡ "shadowsocks") ⊎ (p ≡ "shadowsocks2022"))))
unfolding is_allowed
allowed_cases p h = ground (
  arith,
  h,
  ==_iff p "vmess",
  ==_iff p "vless",
  ==_iff p "trojan",
  ==_iff p "shadowsocks",
  ==_iff p "shadowsocks2022",
)

module _ (P : Packages Error) (sha256 : String → List ℕ) (algo : AuthAlgorithm) where
  -- An account for an inbound that resolveInbounds accepts fails to be made only where the UUID
  -- does, with its error.
  pub build_account-OnlyUuidFails :
      (protocol seed flow method : String)
      → is_allowed protocol ≡ true
      → OnlyUuidFails P sha256 algo seed (build_account P sha256 algo protocol seed flow method)
  unfolding build_account to_lower
  build_account-OnlyUuidFails protocol seed flow method h = elim (allowed_cases protocol h) [
    | inl e ↦ rw e (with_id-OnlyUuidFails P sha256 algo seed (λ id. Account.vmess id) _ refl)
    | inr (inl e) ↦
        rw e (with_id-OnlyUuidFails P sha256 algo seed (λ id. Account.vless id flow) _ refl)
    | inr (inr (inl e)) ↦ rw e tt
    | inr (inr (inr (inl e))) ↦ rw e tt
    | inr (inr (inr (inr e))) ↦ rw e tt
  ]
