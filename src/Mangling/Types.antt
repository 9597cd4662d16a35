-- ===== src/Mangling/Types.antt =====
-- Callback types of include/cwhip/CallbackType.hpp: `callback<result(parameter,parameter)>`.
use simp.Base.{
  ℕ, zero, suc, ◌+◌, ◌-◌, ◌/◌, ◌%◌, ◌^◌, Bool, ◌&&◌, List, [], ◌∷◌, ◌++◌, ◌==◌, ltb, if◌then◌else◌,
  Bytes, codes, equal, length, drop, take,
}

-- `type.compare(0, 9, "callback<") == 0`.
unfoldable pub is_callback_type : Bytes → Bool
is_callback_type type = equal (take 9 type) (codes "callback<")

pub record CallbackSignature : Type 0 where
  pub result : Bytes
  pub parameters : List Bytes

-- `std::size_t` wraps around below 0.
abbrev pub decrement : ℕ → ℕ
decrement zero = 2 ^ 64 - 1
decrement (suc n) = n

-- The depth is at most the size of the text, so that `++depth` does not wrap around.
abbrev pub depth_after : ℕ → ℕ → ℕ
depth_after c depth = if c == b'<' then depth + 1 else if c == b'>' then decrement depth else depth

-- The loop for the opening parenthesis: the text before it, and the text from it on.
unfoldable pub find_open : ℕ → Bytes → Bytes × Bytes
find_open depth [] = ([], [])
find_open depth (c ∷ type) =
    let (result, rest) = find_open (depth_after c depth) type in
    if c == b'(' && depth == 0 then ([], c ∷ type) else (c ∷ result, rest)

abbrev cons_part : ℕ → List Bytes → List Bytes
cons_part c [] = (c ∷ []) ∷ []
cons_part c (part ∷ parts) = (c ∷ part) ∷ parts

-- The parts between the commas at depth 0, up to the last two bytes of the type.
unfoldable pub split_parameters : ℕ → Bytes → List Bytes
split_parameters depth [] = [] ∷ []
split_parameters depth (c ∷ rest) =
    let parts = split_parameters (depth_after c depth) rest in
    if c == b',' && depth == 0 then [] ∷ parts else cons_part c parts

-- The last part is left out if it is empty.
abbrev pub drop_empty : List Bytes → List Bytes
drop_empty [] = []
drop_empty ([] ∷ []) = []
drop_empty ((c ∷ part) ∷ []) = (c ∷ part) ∷ []
drop_empty (part ∷ next ∷ parts) = part ∷ drop_empty (next ∷ parts)

unfoldable pub callback_signature : Bytes → CallbackSignature
unfolding find_open split_parameters
callback_signature type =
    let (result, rest) = find_open 0 (drop 9 type) in
    let inner = drop 1 rest in
    record {
      result = result;
      parameters = drop_empty (split_parameters 0 (take (length inner - 2) inner));
    }

abbrev join_commas : List Bytes → Bytes
join_commas [] = []
join_commas (part ∷ []) = part
join_commas (part ∷ next ∷ parts) = part ++ (b',' ∷ join_commas (next ∷ parts))

unfoldable pub callback_type : Bytes → List Bytes → Bytes
callback_type result parameters =
    codes "callback<" ++ (result ++ (b'(' ∷ join_commas parameters ++ codes ")>"))

unfoldable pub hex_digit : ℕ → ℕ
hex_digit d = if ltb d 10 then b'0' + d else b'a' + (d - 10)

unfoldable pub hex_text : Bytes → Bytes
unfolding hex_digit
hex_text [] = []
hex_text (c ∷ type) = hex_digit (c / 16) ∷ hex_digit (c % 16) ∷ hex_text type

unfoldable pub callback_symbol : Bytes → Bytes
unfolding hex_text
callback_symbol type = codes "cwhip_callback_" ++ hex_text type
