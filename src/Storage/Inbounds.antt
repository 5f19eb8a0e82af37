-- ===== src/Storage/Inbounds.antt =====
-- The loops of the backends that register the inbounds of a configuration in the storage and take them
-- out again, and which inbounds are registered then.
use nde.Prelude.{String, not, ◌&&◌, ◌||◌, List, [], ◌∷◌, ◌==◌, ◌≡◌, refl, arith, text_key, ◌∙◌}
use nde.Prelude.Dict.{get-put, get-delete}
use nde.Models.{Inbound}
use nde.Storage.{Memory, register_inbound, unregister_inbound, has_tag}
use nde.Storage.Lookups.{registered}

unfoldable pub register_all : List Inbound → Memory → Memory
unfolding register_inbound
register_all [] m = m
register_all (inb ∷ rest) m = register_all rest (register_inbound m inb)

unfoldable pub unregister_all : List Inbound → Memory → Memory
unfolding unregister_inbound
unregister_all [] m = m
unregister_all (inb ∷ rest) m = unregister_all rest (unregister_inbound m inb.tag)

registered-register_inbound :
    (inb : Inbound) (m : Memory) (tag : String)
    → registered (register_inbound m inb) tag ≡ (inb.tag == tag || registered m tag)
unfolding registered register_inbound
registered-register_inbound inb m tag = ground (arith, get-put inb.tag tag inb m.inbounds)

registered-unregister_inbound :
    (t : String) (m : Memory) (tag : String)
    → registered (unregister_inbound m t) tag ≡ (not (t == tag) && registered m tag)
unfolding registered unregister_inbound
registered-unregister_inbound t m tag = ground (arith, get-delete t tag m.inbounds)

pub registered-register_all :
    (tag : String) (inbs : List Inbound) (m : Memory)
    → registered (register_all inbs m) tag ≡ (has_tag tag inbs || registered m tag)
unfolding register_all has_tag
registered-register_all tag [] m = refl
registered-register_all tag (inb ∷ rest) m =
    registered-register_all tag rest (register_inbound m inb)
    ∙ ground (arith, registered-register_inbound inb m tag)

pub registered-unregister_all :
    (tag : String) (inbs : List Inbound) (m : Memory)
    → registered (unregister_all inbs m) tag ≡ (not (has_tag tag inbs) && registered m tag)
unfolding unregister_all has_tag
registered-unregister_all tag [] m = refl
registered-unregister_all tag (inb ∷ rest) m =
    registered-unregister_all tag rest (unregister_inbound m inb.tag)
    ∙ ground (arith, registered-unregister_inbound inb.tag m tag)
