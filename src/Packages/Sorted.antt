-- ===== src/Packages/Sorted.antt =====
-- Assignments to a `std::map` of strings in src/PackageRegistry.cpp.
use simp.Base.{[], ◌∷◌, if◌then◌else◌, Bytes, equal}
use simp.Base.Tables.{Table}
use simp.Packages.Version.{compare_text}
use simp.Packages.Select.{is_greater}

-- `table[name] = a`: the keys are in order.
unfoldable pub assign_sorted : {A : Type 0} → Bytes → A → Table A → Table A
unfolding equal
assign_sorted name a [] = (name, a) ∷ []
assign_sorted name a ((key, b) ∷ table) =
    let rest = assign_sorted name a table in
    if equal key name
    then (key, a) ∷ table
    else if is_greater (compare_text key name)
    then (name, a) ∷ (key, b) ∷ table
    else (key, b) ∷ rest
