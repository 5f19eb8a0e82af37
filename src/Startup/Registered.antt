-- ===== src/Startup/Registered.antt =====
-- cmd/marznode/main.go: the inbounds that the storage has when the node has started.
use nde.Prelude.{
  String, Bool, true, false, ◌||◌, Option, none, some, ◌==◌, ◌≡◌, refl, arith, ap, ◌∙◌, sym, subst,
  text_key, is_some, contains, ==_iff, Bool-cases, inl, inr,
}
use nde.Prelude.Dict.{get}
use nde.Backend.{Error}
use nde.Storage.{Memory, new_memory}
use nde.Storage.Lookups.{registered}
use nde.Auth.{Packages}
use nde.Settings.{Config}
use nde.Xray
use nde.Xray.Lifecycle.Serving
use nde.Hysteria2
use nde.Hysteria2.Lifecycle.Running
use nde.Singbox
use nde.Singbox.Lifecycle.Served
use nde.Startup.{
  Node, new_xray, new_hysteria2, new_singbox, started_xray, started_hysteria2, started_singbox,
  start_xray, start_hysteria2, start_singbox, after_singbox, after_hysteria2, after_xray,
  start_node, algorithm_of,
}

-- What is known of a started backend and the storage is known of their other names.
carried :
    {A : Type 0} (has : Option A → String → Bool) (o o' : Option A) (m m' : Memory) (tag : String)
    (old : Bool)
    → ◌≡◌ {A = Option (Option A × Memory)} (some (o, m)) (some (o', m'))
    → registered m tag ≡ (has o tag || old)
    → registered m' tag ≡ (has o' tag || old)
carried has o o' m m' tag old e h =
    let store : m ≡ m' = cc in
    let backend : o ≡ o' = cc in
    ap (λ s. registered s tag) (sym store) ∙ h ∙ ap (λ b. has b tag || old) backend

module _ (X : Xray.Lifecycle.Outside) where
  abbrev pub xray_has : Option (Xray.Lifecycle.Backend X) → String → Bool
  xray_has none tag = false
  xray_has (some b) tag = Xray.Lifecycle.contains_tag X b tag

  new_xray-IsServing :
      (cfg : Config) (m : Memory) (w : X.World) → Serving.IsServing X (new_xray X cfg m w)
  unfolding new_xray Xray.Lifecycle.contains_tag
  new_xray-IsServing cfg m w = record {
    indexed = tt;
    served = λ tag has. absurd (ground (arith, has));
  }

  started_xray-registered :
      (before : Xray.Lifecycle.Backend X) (r : Xray.Lifecycle.Outcome × Xray.Lifecycle.Backend X)
      (o : Option (Xray.Lifecycle.Backend X)) (m : Memory) (tag : String)
      → Serving.Started X before r
      → started_xray X r ≡ some (o, m)
      → registered m tag ≡ (xray_has o tag || registered before.store tag)
  unfolding started_xray
  started_xray-registered before (Xray.Lifecycle.returned none, b) o m tag started e =
      carried xray_has (some b) o b.store m tag (registered before.store tag) e
        (started.gained refl tag)
  started_xray-registered before (Xray.Lifecycle.returned (some x), b) o m tag started e = cc
  started_xray-registered before (Xray.Lifecycle.crashed, b) o m tag started e = cc

  start_xray-registered :
      (cfg : Config) (before : Memory) (w : X.World) (o : Option (Xray.Lifecycle.Backend X))
      (m : Memory) (tag : String)
      → start_xray X cfg before w ≡ some (o, m)
      → registered m tag ≡ (xray_has o tag || registered before tag)
  unfolding start_xray
  start_xray-registered cfg before w o m tag e = elim (Bool-cases cfg.xray_enabled) [
    | inr off ↦ carried xray_has none o before m tag (registered before tag) (rw off at e) refl
    | inl on ↦
        let b = new_xray X cfg before w in
        started_xray-registered b (Xray.Lifecycle.start X b "") o m tag
          (Serving.start-Started X b "" (new_xray-IsServing cfg before w)) (rw on at e)
  ]

module _ (H : Hysteria2.Lifecycle.Outside) where
  abbrev pub hysteria2_has : Option (Hysteria2.Lifecycle.Backend H) → String → Bool
  hysteria2_has none tag = false
  hysteria2_has (some b) tag = Hysteria2.contains_tag tag

  one_more :
      (before b : Hysteria2.Lifecycle.Backend H) (tag : String)
      → Running.Kept H before b
      → Running.Serves H b
      → registered b.store tag ≡ (Hysteria2.contains_tag tag || registered before.store tag)
  unfolding registered Hysteria2.contains_tag
  one_more before b tag kept serves = elim (Bool-cases ("hysteria2" == tag)) [
    | inl its ↦
        let same : "hysteria2" ≡ tag = (==_iff "hysteria2" tag).0 its in
        let there : is_some (get tag b.store.inbounds) ≡ true =
          ap (λ t. is_some (get t b.store.inbounds)) (sym same) ∙ ap is_some serves.registered in
        there ∙ ap (λ t. t == "hysteria2" || is_some (get t before.store.inbounds)) same
    | inr other ↦
        ap is_some (kept.others tag other)
        ∙ ground (arith, other, ==_iff "hysteria2" tag, ==_iff tag "hysteria2")
  ]

  started_hysteria2-registered :
      (before : Hysteria2.Lifecycle.Backend H)
      (r : Hysteria2.Lifecycle.Outcome × Hysteria2.Lifecycle.Backend H)
      (o : Option (Hysteria2.Lifecycle.Backend H)) (m : Memory) (tag : String)
      → Running.Started H before r
      → started_hysteria2 H r ≡ some (o, m)
      → registered m tag ≡ (hysteria2_has o tag || registered before.store tag)
  unfolding started_hysteria2
  started_hysteria2-registered before (Hysteria2.Lifecycle.returned none, b) o m tag started e =
      carried hysteria2_has (some b) o b.store m tag (registered before.store tag) e
        (one_more before b tag started.kept (started.serves refl))
  started_hysteria2-registered before (Hysteria2.Lifecycle.returned (some x), b) o m tag started e =
      cc
  started_hysteria2-registered before (Hysteria2.Lifecycle.crashed, b) o m tag started e = cc

  start_hysteria2-registered :
      (cfg : Config) (before : Memory) (w : H.World) (o : Option (Hysteria2.Lifecycle.Backend H))
      (m : Memory) (tag : String)
      → start_hysteria2 H cfg before w ≡ some (o, m)
      → registered m tag ≡ (hysteria2_has o tag || registered before tag)
  unfolding start_hysteria2 new_hysteria2
  start_hysteria2-registered cfg before w o m tag e = elim (Bool-cases cfg.hysteria_enabled) [
    | inr off ↦ carried hysteria2_has none o before m tag (registered before tag) (rw off at e) refl
    | inl on ↦
        let b = new_hysteria2 H before w in
        started_hysteria2-registered b (Hysteria2.Lifecycle.start H b "") o m tag
          (Running.start-Started H b "" refl) (rw on at e)
  ]

module _ (S : Singbox.Files.Outside) (P : Packages Error) where
  abbrev pub singbox_has : Option (Singbox.Lifecycle.Backend S) → String → Bool
  singbox_has none tag = false
  singbox_has (some b) tag = Singbox.Lifecycle.contains_tag S b tag

  new_singbox-IsIdle : (m : Memory) (w : S.World) → Served.IsIdle S (new_singbox S m w)
  unfolding new_singbox Singbox.Lifecycle.contains_tag contains
  new_singbox-IsIdle m w = record {
    off = refl;
    indexed = refl;
    served = λ tag has. absurd (ground (arith, has));
  }

  started_singbox-registered :
      (before : Singbox.Lifecycle.Backend S)
      (r : Singbox.Lifecycle.Outcome × Singbox.Lifecycle.Backend S)
      (o : Option (Singbox.Lifecycle.Backend S)) (m : Memory) (tag : String)
      → Served.Started S before.store r
      → started_singbox S P r ≡ some (o, m)
      → registered m tag ≡ (singbox_has o tag || registered before.store tag)
  unfolding started_singbox
  started_singbox-registered before (Singbox.Lifecycle.returned none, b) o m tag started e =
      carried singbox_has (some b) o b.store m tag (registered before.store tag) e
        ((started.runs refl).gained tag)
  started_singbox-registered before (Singbox.Lifecycle.returned (some x), b) o m tag started e = cc
  started_singbox-registered before (Singbox.Lifecycle.crashed, b) o m tag started e = cc

  start_singbox-registered :
      (cfg : Config) (before : Memory) (w : S.World) (o : Option (Singbox.Lifecycle.Backend S))
      (m : Memory) (tag : String)
      → start_singbox S P cfg before w ≡ some (o, m)
      → registered m tag ≡ (singbox_has o tag || registered before tag)
  unfolding start_singbox new_singbox
  start_singbox-registered cfg before w o m tag e = elim (Bool-cases cfg.sing_box_enabled) [
    | inr off ↦ carried singbox_has none o before m tag (registered before tag) (rw off at e) refl
    | inl on ↦
        let b = new_singbox S before w in
        started_singbox-registered b (Singbox.Lifecycle.start S P (algorithm_of cfg) b "") o m tag
          (Served.start-Started S P (algorithm_of cfg) b "" (new_singbox-IsIdle before w))
          (rw on at e)
  ]

module _ (X : Xray.Lifecycle.Outside) (H : Hysteria2.Lifecycle.Outside) (S : Singbox.Files.Outside)
    (P : Packages Error) where
  abbrev pub offers : Node X H S → String → Bool
  offers n tag =
      singbox_has S P n.sing_box tag || (hysteria2_has H n.hysteria2 tag || xray_has X n.xray tag)

  module _ (cfg : Config) (ws : S.World) (n : Node X H S) (tag : String) where
    after_singbox-registered :
        (xray : Option (Xray.Lifecycle.Backend X))
        (hysteria2 : Option (Hysteria2.Lifecycle.Backend H))
        (r : Option (Option (Singbox.Lifecycle.Backend S) × Memory)) (old : Bool)
        → ((o : Option (Singbox.Lifecycle.Backend S)) (m : Memory)
            → r ≡ some (o, m)
            → registered m tag ≡ (singbox_has S P o tag || old))
        → old ≡ (hysteria2_has H hysteria2 tag || xray_has X xray tag)
        → after_singbox X H S P xray hysteria2 r ≡ some n
        → registered n.store tag ≡ offers n tag
    unfolding after_singbox
    after_singbox-registered xray hysteria2 none old known before e = cc
    after_singbox-registered xray hysteria2 (some (o, m)) old known before e =
        let started : Node X H S = record {
          xray = xray;
          hysteria2 = hysteria2;
          sing_box = o;
          store = m;
        } in
        let it : started ≡ n = cc in
        subst (λ (k : Node X H S). registered k.store tag ≡ offers k tag) it
          (known o m refl ∙ ap (λ b. singbox_has S P o tag || b) before)

    after_hysteria2-registered :
        (xray : Option (Xray.Lifecycle.Backend X))
        (r : Option (Option (Hysteria2.Lifecycle.Backend H) × Memory))
        → ((o : Option (Hysteria2.Lifecycle.Backend H)) (m : Memory)
            → r ≡ some (o, m)
            → registered m tag ≡ (hysteria2_has H o tag || xray_has X xray tag))
        → after_hysteria2 X H S P cfg ws xray r ≡ some n
        → registered n.store tag ≡ offers n tag
    unfolding after_hysteria2
    after_hysteria2-registered xray none known e = cc
    after_hysteria2-registered xray (some (o, m)) known e =
        after_singbox-registered xray o (start_singbox S P cfg m ws) (registered m tag)
          (λ o' m' e'. start_singbox-registered S P cfg m ws o' m' tag e') (known o m refl) e

    after_xray-registered :
        (wh : H.World) (r : Option (Option (Xray.Lifecycle.Backend X) × Memory))
        → ((o : Option (Xray.Lifecycle.Backend X)) (m : Memory)
            → r ≡ some (o, m)
            → registered m tag ≡ xray_has X o tag)
        → after_xray X H S P cfg wh ws r ≡ some n
        → registered n.store tag ≡ offers n tag
    unfolding after_xray
    after_xray-registered wh none known e = cc
    after_xray-registered wh (some (o, m)) known e =
        after_hysteria2-registered o (start_hysteria2 H cfg m wh)
          (λ o' m' e'.
            start_hysteria2-registered H cfg m wh o' m' tag e'
            ∙ ap (λ b. hysteria2_has H o' tag || b) (known o m refl))
          e

  -- Where the node has started, an inbound is registered in the storage exactly if one of the backends
  -- that are enabled says that it has it.
  pub start_node-registered :
      (cfg : Config) (wx : X.World) (wh : H.World) (ws : S.World) (n : Node X H S) (tag : String)
      → start_node X H S P cfg wx wh ws ≡ some n
      → registered n.store tag ≡ offers n tag
  unfolding start_node registered new_memory get
  start_node-registered cfg wx wh ws n tag e =
      after_xray-registered cfg ws n tag wh (start_xray X cfg new_memory wx)
        (λ o m e'. start_xray-registered X cfg new_memory wx o m tag e' ∙ ground arith) e
