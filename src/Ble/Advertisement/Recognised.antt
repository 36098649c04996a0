-- ===== src/Ble/Advertisement/Recognised.antt =====
-- Which locks an advertisement is taken for.
use onesti_lock.Base.{
  ℕ, true, ok, List, [], ◌∷◌, ◌++◌, ◌≡◌, ◌≢◌, ◌↔◌, refl, ap, ◌∙◌, arith, length, take, Bool-cases,
  inl, inr,
}
use onesti_lock.Ble.Advertisement.{
  Advertisement, same_bytes, default_device_id_seed, enrolled, matches, parse_advertisement,
}

same_bytes_refl : (xs : List ℕ) → same_bytes xs xs ≡ true
unfolding same_bytes
same_bytes_refl [] = refl
same_bytes_refl (x ∷ xs) = ground (arith, same_bytes_refl xs)

same_bytes-eq : (xs ys : List ℕ) → same_bytes xs ys ≡ true → xs ≡ ys
unfolding same_bytes
same_bytes-eq [] [] h = refl
same_bytes-eq (x ∷ xs) [] h = cc h
same_bytes-eq [] (y ∷ ys) h = cc h
same_bytes-eq (x ∷ xs) (y ∷ ys) h =
    ground (arith, λ (t : same_bytes xs ys ≡ true). same_bytes-eq xs ys t)

-- The service data of a lock that is enrolled under a device id: a seed of two bytes and six bytes
-- of the hash.
abbrev pub service_data : (List ℕ → List ℕ) → ℕ → ℕ → List ℕ → List ℕ
service_data sha1 s0 s1 device_id = s0 ∷ s1 ∷ take 6 (sha1 (s0 ∷ s1 ∷ device_id))

parse_service_data :
    (a b c d e f g h : ℕ) (extra : List ℕ)
    → parse_advertisement (a ∷ b ∷ c ∷ d ∷ e ∷ f ∷ g ∷ h ∷ extra)
      ≡ ok (record { seed = a ∷ b ∷ []; identifier = c ∷ d ∷ e ∷ f ∷ g ∷ h ∷ [] })
unfolding parse_advertisement
parse_service_data a b c d e f g h extra = ground arith

-- A lock that is enrolled is recognised by a device id exactly where its identifier is the front of
-- the hash of its seed and that id; a lock that nobody has enrolled is recognised by none.
pub matches_iff :
    (sha1 : List ℕ → List ℕ) (device_id : List ℕ) (a : Advertisement)
    → length device_id ≡ 6
    → (matches sha1 device_id a ≡ ok true)
      ↔ ((a.seed ≢ default_device_id_seed) × (take 6 (sha1 (a.seed ++ device_id)) ≡ a.identifier))
unfolding matches enrolled
matches_iff sha1 device_id a size = elim (Bool-cases (same_bytes a.seed default_device_id_seed)) [
  | inl factory ↦
      rw (size, factory)
        (λ h. cc h, λ h. absurd (h.0 (same_bytes-eq a.seed default_device_id_seed factory)))
  | inr other ↦
      rw (size, other)
        (
          λ h. (
            λ p. cc (
              other,
              ap (λ seed. same_bytes seed default_device_id_seed) p,
              same_bytes_refl default_device_id_seed,
            ),
            same_bytes-eq (take 6 (sha1 (a.seed ++ device_id))) a.identifier (cc h),
          ),
          λ h. ap ok (ap (λ x. same_bytes x a.identifier) h.1 ∙ same_bytes_refl a.identifier),
        )
]
