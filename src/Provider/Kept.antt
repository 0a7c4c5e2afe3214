-- ===== src/Provider/Kept.antt =====
-- What a registration leaves in the local provider.
use semblend_vllm_connector.Prelude.{
  ℕ, suc, ◌≤◌, ◌<◌, ◌≡◌, refl, inl, inr, String, Bool, true, false, Option, none, some, [], ◌∷◌,
  arith, Dict, Bool-cases, leb, if◌then◌else◌, get, remove, length, str_eq, get-put_self,
  length-put, length-remove,
}
use semblend_vllm_connector.Types.{DonorRegistration}
use semblend_vllm_connector.Provider.{
  LocalSemanticProvider, make_room, is_known, with_donor, register_donor,
}

length-remove_known :
    (k : String) (d : Dict DonorRegistration)
    → is_known (get k d) ≡ true
    → suc (length (remove k d)) ≤ length d
unfolding get remove
length-remove_known k [] h = ground (arith, h)
length-remove_known k ((j, donor) ∷ rest) h = elim (Bool-cases (str_eq j k)) [
  | inl same ↦ rw same (omega (arith, length-remove k rest))
  | inr apart ↦ rw apart (omega (arith, length-remove_known k rest (ground (arith, h, apart))))
]

module _ (max_donors : ℕ) where
  abbrev HasRoom : Option (Dict DonorRegistration) → Type 0
  HasRoom none = max_donors ≡ 0
  HasRoom (some donors) = length donors < max_donors

  HasRoom-if :
      (test : Bool) (x y : Option (Dict DonorRegistration))
      → HasRoom x
      → (test ≡ false → HasRoom y)
      → HasRoom (if test then x else y)
  HasRoom-if true x y hx hy = hx
  HasRoom-if false x y hx hy = hy refl

  make_room-HasRoom : (donors : Dict DonorRegistration) → HasRoom (make_room max_donors donors)
  unfolding make_room
  make_room-HasRoom [] = elim (Bool-cases (leb max_donors 0)) [
    | inl zero_room ↦ rw zero_room (ground arith)
    | inr room ↦ rw room (ground arith)
  ]
  make_room-HasRoom (oldest ∷ rest) =
      HasRoom-if (leb max_donors (length (oldest ∷ rest))) _ _ (make_room-HasRoom rest)
        (λ room. ground arith)

module _ (donor : DonorRegistration) (p : LocalSemanticProvider) where
  abbrev pub IsKept : Option LocalSemanticProvider → Type 0
  IsKept none = p.max_donors ≡ 0
  IsKept (some p') =
      (get donor.donor_id p'.donors ≡ some donor)
      × (length p.donors ≤ p.max_donors → length p'.donors ≤ p.max_donors)

  IsKept-if :
      (test : Bool) (x y : Option LocalSemanticProvider)
      → (test ≡ true → IsKept x)
      → IsKept y
      → IsKept (if test then x else y)
  IsKept-if true x y hx hy = hx refl
  IsKept-if false x y hx hy = hy

  with-IsKept :
      (donors : Option (Dict DonorRegistration))
      → HasRoom p.max_donors donors
      → IsKept (with_donor donor p donors)
  unfolding with_donor
  with-IsKept none h = h
  with-IsKept (some donors) h = (
    get-put_self donor.donor_id donor donors,
    λ bounded. omega (arith, h, length-put donor.donor_id donor donors),
  )

  known-IsKept :
      is_known (get donor.donor_id p.donors) ≡ true
      → IsKept (with_donor donor p (some (remove donor.donor_id p.donors)))
  unfolding with_donor
  known-IsKept known = (
    get-put_self donor.donor_id donor (remove donor.donor_id p.donors),
    λ bounded. omega (
      arith,
      bounded,
      length-remove_known donor.donor_id p.donors known,
      length-put donor.donor_id donor (remove donor.donor_id p.donors),
    ),
  )

  -- A registered donor is there under its id, and a provider within its cap stays within it. Only with
  -- a cap of 0 does the registration raise.
  pub register_donor-IsKept : IsKept (register_donor donor p)
  unfolding register_donor
  register_donor-IsKept =
      IsKept-if (is_known (get donor.donor_id p.donors)) _ _ known-IsKept
        (with-IsKept (make_room p.max_donors p.donors) (make_room-HasRoom p.max_donors p.donors))
