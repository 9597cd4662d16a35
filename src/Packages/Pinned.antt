-- ===== src/Packages/Pinned.antt =====
-- The pins that `Resolver::visit` of src/PackageRegistry.cpp leaves behind.
use simp.Base.{
  ℕ, Bool, true, false, [], ◌∷◌, ◌≡◌, ◌≢◌, ◌⊎◌, inl, inr, refl, ◌∙◌, subst, Bytes, In, equal_iff,
  Option-cases,
}
use simp.Base.Attempts.{done}
use simp.Base.Tables.{find, find-In}
use simp.Packages.Sorted.{assign_sorted}
use simp.Packages.Resolver.{Pins, pin}
use simp.Packages.SortedPins.{pinned, ArePinned, Assigned, assign_sorted-Assigned, find-version}

module _ (version : Bytes → Bytes) where
  -- The pins after a visit of `name` that requires `required`.
  pub record Pinned (name required : Bytes) (pins : Pins) (after : Pins) : Type 0 where
    pub are : ArePinned version after
    pub kept : (x : Bytes) → In x (pinned pins) → In x (pinned after)
    pub present : (required ≡ []) ⊎ In name (pinned after)
    pub only :
        (x : Bytes) → In x (pinned after) → ((x ≡ name) × (required ≢ [])) ⊎ In x (pinned pins)

  Assigned-Pinned :
      (name : Bytes) (c : ℕ) (required : Bytes) (pins after : Pins)
      → Assigned version name pins after
      → Pinned name (c ∷ required) pins after
  Assigned-Pinned name c required pins after r = record {
    are = r.are;
    kept = r.kept;
    present = inr r.present;
    only = λ x i. elim (r.only x i) [ inl s ↦ inl (s, λ e. cc) | inr j ↦ inr j ];
  }

  assigned_version :
      (name : Bytes) (c : ℕ) (required : Bytes) (pins : Pins)
      → ArePinned version pins
      → version name ≡ c ∷ required
      → Pinned name (c ∷ required) pins (assign_sorted name (c ∷ required) pins)
  assigned_version name c required pins a e =
      Assigned-Pinned name c required pins (assign_sorted name (c ∷ required) pins) (
        subst (λ v. Assigned version name pins (assign_sorted name v pins)) e
          (assign_sorted-Assigned version name pins a))

  pub pin-Pinned :
      (locked : Bool) (name required : Bytes) (pins : Pins)
      → ArePinned version pins
      → (required ≡ []) ⊎ (version name ≡ required)
      → (after : Pins) × (pin locked name required pins ≡ done after)
        × Pinned name required pins after
  unfolding pin
  pin-Pinned locked name [] pins a r =
      (pins, refl, record { are = a; kept = λ x i. i; present = inl refl; only = λ x i. inr i })
  pin-Pinned locked name (c ∷ required) pins a (inl r) = cc
  pin-Pinned true name (c ∷ required) pins a (inr r) = elim (Option-cases (find name pins)) [
    | inl o ↦ (
      assign_sorted name (c ∷ required) pins,
      rw (o) refl,
      assigned_version name c required pins a r,
    )
    | inr (v, o) ↦ (
      pins,
      rw (o) refl,
      record {
        are = a;
        kept = λ x i. i;
        present = inr (find-In name v pins o);
        only = λ x i. inr i;
      },
    )
  ]
  pin-Pinned false name (c ∷ required) pins a (inr r) = (
    assign_sorted name (c ∷ required) pins,
    elim (Option-cases (find name pins)) [
      | inl o ↦ rw (o) refl
      | inr (v, o) ↦
          rw (o, (equal_iff v (c ∷ required)).1 (find-version version name v pins a o ∙ r)) refl
    ],
    assigned_version name c required pins a r,
  )
