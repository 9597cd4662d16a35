-- ===== src/Packages/SortedPins.antt =====
-- The pins of src/PackageRegistry.cpp: a map by names, in their order.
use Prim.Native.Nat.{lt}
use simp.Base.{
  true, false, some, List, [], ◌∷◌, ◌≡◌, ◌≢◌, ◌⊎◌, inl, inr, refl, sym, ap, ◌∙◌, subst, Bytes, In,
  map, equal, equal_iff, equal_self, Bool-cases,
}
use simp.Base.Tables.{find}
use simp.Packages.Order.{Ordering-cases, compare_self, flip}
use simp.Packages.Version.{compare_text}
use simp.Packages.Precedence.{compare_text-IsOrder}
use simp.Packages.Select.{is_greater}
use simp.Packages.Sorted.{assign_sorted}
use simp.Packages.Resolver.{Pins, same_pins}

abbrev pub pinned : Pins → List Bytes
pinned pins = map (λ e. e.0) pins

abbrev IsBelow : Bytes → Pins → Type 0
IsBelow k pins = (x : Bytes) → In x (pinned pins) → compare_text k x ≡ lt

-- In order, and each name has its version.
abbrev pub ArePinned : (Bytes → Bytes) → Pins → Type 0
ArePinned version [] = Unit
ArePinned version ((k, v) ∷ pins) = (v ≡ version k) × IsBelow k pins × ArePinned version pins

not-below-itself : (k : Bytes) → compare_text k k ≢ lt
not-below-itself k h = cc (h, compare_self compare_text-IsOrder k)

not-below-both : (k j : Bytes) → compare_text k j ≡ lt → compare_text j k ≢ lt
not-below-both k j h g = cc (h, g, compare_text-IsOrder.flips k j)

pub same_pins_self : (pins : Pins) → same_pins pins pins ≡ true
unfolding same_pins
same_pins_self [] = refl
same_pins_self ((k, v) ∷ pins) = rw (equal_self k, equal_self v) (same_pins_self pins)

behind :
    (k j x : Bytes) (ps qs : Pins)
    → IsBelow k ps
    → k ≡ j
    → In x (pinned ps)
    → (x ≡ j) ⊎ In x (pinned qs)
    → In x (pinned qs)
behind k j x ps qs below e i (inl same) = absurd (not-below-itself k (cc (below x i, same, e)))
behind k j x ps qs below e i (inr i') = i'

greater-below :
    (k name : Bytes) → is_greater (compare_text k name) ≡ true → compare_text name k ≡ lt
greater-below k name h = elim (Ordering-cases (compare_text k name)) [
  | inl l ↦ cc (h, ap is_greater l)
  | inr (inl s) ↦ cc (h, ap is_greater s)
  | inr (inr g) ↦ compare_text-IsOrder.flips k name ∙ ap flip g
]

smaller-below :
    (k name : Bytes)
    → equal k name ≡ false
    → is_greater (compare_text k name) ≡ false
    → compare_text k name ≡ lt
smaller-below k name n h = elim (Ordering-cases (compare_text k name)) [
  | inl l ↦ l
  | inr (inl s) ↦ cc (n, (equal_iff k name).1 (compare_text-IsOrder.same k name s))
  | inr (inr g) ↦ cc (h, ap is_greater g)
]

module _ (version : Bytes → Bytes) where
  pub find-version :
      (name v : Bytes) (pins : Pins)
      → ArePinned version pins
      → find name pins ≡ some v
      → v ≡ version name
  unfolding find
  find-version name v [] a h = absurd (cc h)
  find-version name v ((k, w) ∷ pins) (e, b, a) h = elim (Bool-cases (equal k name)) [
    | inl same ↦
        let found : some w ≡ some v = rw same at h in cc (found, e, (equal_iff k name).0 same)
    | inr other ↦ find-version name v pins a (rw other at h)
  ]

  -- Maps with the same names are equal.
  pub pinned-same :
      (ps qs : Pins)
      → ArePinned version ps
      → ArePinned version qs
      → ((x : Bytes) → In x (pinned ps) → In x (pinned qs))
      → ((x : Bytes) → In x (pinned qs) → In x (pinned ps))
      → ps ≡ qs
  pinned-same [] [] a b to from = refl
  pinned-same [] ((j, w) ∷ qs) a b to from = absurd (from j (inl refl))
  pinned-same ((k, v) ∷ ps) [] a b to from = absurd (to k (inl refl))
  pinned-same ((k, v) ∷ ps) ((j, w) ∷ qs) (e, ka, a) (e', jb, b) to from =
      let heads : k ≡ j = elim (to k (inl refl)) [
        | inl same ↦ same
        | inr i ↦ elim (from j (inl refl)) [
          | inl same ↦ sym same
          | inr i' ↦ absurd (not-below-both j k (jb k i) (ka j i'))
        ]
      ] in
      let tails =
        pinned-same ps qs a b (λ x i. behind k j x ps qs ka heads i (to x (inr i)))
          (λ x i. behind j k x qs ps jb (sym heads) i (from x (inr i))) in
      cc (heads, tails, e, e')

  -- `pins[name] = version` with the version of the name.
  pub record Assigned (name : Bytes) (pins : Pins) (after : Pins) : Type 0 where
    pub are : ArePinned version after
    pub kept : (x : Bytes) → In x (pinned pins) → In x (pinned after)
    pub present : In name (pinned after)
    pub only : (x : Bytes) → In x (pinned after) → (x ≡ name) ⊎ In x (pinned pins)

  further :
      (name k v : Bytes) (pins : Pins)
      → v ≡ version k
      → IsBelow k pins
      → ArePinned version pins
      → equal k name ≡ false
      → is_greater (compare_text k name) ≡ false
      → Assigned name pins (assign_sorted name (version name) pins)
      → Assigned name ((k, v) ∷ pins) ((k, v) ∷ assign_sorted name (version name) pins)
  further name k v pins e below a other smaller r = record {
    are = (
      e,
      λ x i. elim (r.only x i) [
        | inl s ↦ subst (λ y. compare_text k y ≡ lt) (sym s) (smaller-below k name other smaller)
        | inr i' ↦ below x i'
      ],
      r.are,
    );
    kept = λ x i. elim i [ inl s ↦ inl s | inr i' ↦ inr (r.kept x i') ];
    present = inr r.present;
    only = λ x i. elim i [
      | inl s ↦ inr (inl s)
      | inr i' ↦ elim (r.only x i') [ inl s ↦ inl s | inr j ↦ inr (inr j) ]
    ];
  }

  pub assign_sorted-Assigned :
      (name : Bytes) (pins : Pins)
      → ArePinned version pins
      → Assigned name pins (assign_sorted name (version name) pins)
  unfolding assign_sorted
  assign_sorted-Assigned name [] a = record {
    are = (refl, λ x i. absurd i, tt);
    kept = λ x i. absurd i;
    present = inl refl;
    only = λ x i. i;
  }
  assign_sorted-Assigned name ((k, v) ∷ pins) (e, below, a) = elim (Bool-cases (equal k name)) [
    | inl same ↦ rw same (record {
      are = (ap version (sym ((equal_iff k name).0 same)), below, a);
      kept = λ x i. i;
      present = inl (sym ((equal_iff k name).0 same));
      only = λ x i. inr i;
    })
    | inr other ↦ rw other (elim (Bool-cases (is_greater (compare_text k name))) [
      | inl greater ↦ rw greater (record {
        are = (
          refl,
          λ x i. elim i [
            | inl s ↦ subst (λ y. compare_text name y ≡ lt) (sym s) (greater-below k name greater)
            | inr i' ↦
                compare_text-IsOrder.chains name k x (greater-below k name greater) (below x i')
          ],
          (e, below, a),
        );
        kept = λ x i. inr i;
        present = inl refl;
        only = λ x i. i;
      })
      | inr smaller ↦
          rw smaller
            (further name k v pins e below a other smaller (assign_sorted-Assigned name pins a))
    ])
  ]
