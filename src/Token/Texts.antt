-- ===== src/Token/Texts.antt =====
-- Texts of numbers and commas, for runs of the contracts at concrete inputs.
use uvm.Base.{ℕ, List, [], ◌∷◌, if◌then◌else◌, ◌==◌, leb, ◌&&◌}
use uvm.Cbor.Value.{Bytes}

-- Stand-ins for `boost::split`, `boost::trim` and `strtod` on texts of digits and commas.
abbrev to_front : ℕ → List Bytes → List Bytes
to_front c [] = (c ∷ []) ∷ []
to_front c (s ∷ ss) = (c ∷ s) ∷ ss

abbrev pub split_commas : Bytes → List Bytes
split_commas [] = [] ∷ []
split_commas (c ∷ cs) = if c == b',' then [] ∷ split_commas cs else to_front c (split_commas cs)

abbrev pub trim_spaces : Bytes → Bytes
trim_spaces [] = []
trim_spaces (c ∷ cs) = if c == b' ' then trim_spaces cs else c ∷ cs

abbrev pub after_digits : Bytes → Bytes
after_digits [] = []
after_digits (c ∷ cs) = if leb b'0' c && leb c b'9' then after_digits cs else c ∷ cs
