-- ===== src/Integration/Coordinator/Saved.antt =====
-- What is saved is what is loaded again, here and in the coordinator of a reload.
use onesti_lock.Base.{ℕ, List, [], ◌∷◌, Option, none, some, ◌≡◌, refl, ap, sym, ◌∙◌}
use onesti_lock.Base.Dict.{map_values}
use onesti_lock.Integration.Coordinator.{
  Slot, Options, Coordinator, World, fill, whole, loaded, save_slots,
}

fill-whole : (d : List (ℕ × Slot)) → map_values fill (map_values whole d) ≡ d
unfolding map_values
fill-whole [] = refl
fill-whole ((k, s) ∷ d) = ap (λ rest. (k, s) ∷ rest) (fill-whole d)

-- The coordinators hold what the entry's options say.
abbrev pub OtherFits : Options → Option Coordinator → Type 0
OtherFits o none = Unit
OtherFits o (some c) = c.slots ≡ loaded o

pub record IsCoherent (w : World) : Type 0 where
  pub own : w.self.slots ≡ loaded w.options
  pub other : OtherFits w.options w.current

pub save_slots-loaded : (w : World) → loaded (save_slots w).options ≡ w.self.slots
unfolding save_slots loaded
save_slots-loaded w = fill-whole w.self.slots

pub save_slots-IsCoherent : (w : World) → IsCoherent (save_slots w)
save_slots-IsCoherent w = record {
  own = kept ∙ sym (save_slots-loaded w);
  other = adopting w.current;
}
  where
    kept : (save_slots w).self.slots ≡ w.self.slots
    kept = unfold save_slots in refl

    adopting :
        (o : Option Coordinator)
        → OtherFits
            (save_slots (record w { current = o })).options
            (save_slots (record w { current = o })).current
    adopting none = unfold save_slots in tt
    adopting (some c) = unfold save_slots in refl
