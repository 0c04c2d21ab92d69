-- ===== src/Tests/AgentRpc.antt =====
-- Examples of the frames of an agent runtime.
use yunova.Base.{ℕ, ◌≡◌, refl, true, Option, none, some, List, [], ◌∷◌, ◌++◌, if◌then◌else◌, map}
use yunova.Base.Text.{codes, same, trim}
use yunova.Usage.Json.{Value, null, boolean}
use yunova.AgentRpc.{new, push_all, encode, without_cr}
use yunova.AgentRpc.Lossless.{IsPrinted, joined, push_all-encode}

-- A printer and a parser of `null` and of the truth values.
abbrev print : Value → Option (List ℕ)
print null = some (codes "null")
print (boolean b) = some (if b then codes "true" else codes "false")
print _ = none

abbrev parse : List ℕ → Option Value
parse cs = if same cs (codes "null") then some null else some (boolean (same cs (codes "true")))

null-IsPrinted : IsPrinted print parse null
unfolding without_cr trim same
null-IsPrinted = record {
  text = codes "null";
  printed = refl;
  one_line = refl;
  kept = refl;
  shown = refl;
  parsed = refl;
}

true-IsPrinted : IsPrinted print parse (boolean true)
unfolding without_cr trim same
true-IsPrinted = record {
  text = codes "true";
  printed = refl;
  one_line = refl;
  kept = refl;
  shown = refl;
  parsed = refl;
}

-- The chunks are cut inside of both values.
abbrev cut : List (List ℕ)
cut = codes "nu" ∷ (codes "ll" ++ 10 ∷ codes "tr") ∷ (codes "ue" ++ 10 ∷ []) ∷ []

cut_right : joined cut ≡ joined (map (encode print) (null ∷ boolean true ∷ []))
unfolding encode
cut_right = refl

push_all-encode_example : push_all parse new cut ≡ (null ∷ boolean true ∷ [], new)
push_all-encode_example =
    push_all-encode parse print (null ∷ boolean true ∷ []) cut
      (null-IsPrinted, (true-IsPrinted, tt)) cut_right
