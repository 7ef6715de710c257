-- ===== src/Strings/Join/RoundTrip.antt =====
-- gstr/join.go: what JoinInts writes is what SplitInts reads.
use mathlib.Core.List.{append_assoc}
use gokits.Prelude.{
  ℕ, ◌-◌, ◌==◌, ◌≡◌, refl, ap, sym, ◌∙◌, false, some, List, [], ◌∷◌, ◌++◌, length, length-append,
  take, map, arith,
}
use gokits.Strings.Join.{
  Bytes, comma, Decimal, AllCommaFree, separated, IsDecimal, written, truncated, join_ints,
  parse_all, split_ints,
}

take-append : (s : Bytes) (b : ℕ) → take (length s) (s ++ b ∷ []) ≡ s
take-append [] b = refl
take-append (c ∷ s) b = ap (λ t. c ∷ t) (take-append s b)

module _ {I : Type 0} (d : Decimal I) where
  truncated_lem : (s : Bytes) (b : ℕ) → truncated d (s ++ b ∷ []) ≡ s
  unfolding truncated
  truncated_lem [] b = refl
  truncated_lem (c ∷ s) b =
      let same : length (c ∷ (s ++ b ∷ [])) - 1 ≡ length (c ∷ s) =
        omega (arith, length-append s (b ∷ [])) in
      ap (λ n. take n (c ∷ (s ++ b ∷ []))) same ∙ take-append (c ∷ s) b

  written_lem :
      (i : I) (is : List I)
      → written d (i ∷ is) ≡ separated (d.format i) (map d.format is) ++ comma ∷ []
  unfolding written separated
  written_lem i [] = refl
  written_lem i (j ∷ is) =
      ap (λ t. d.format i ++ (comma ∷ t)) (written_lem j is)
      ∙ sym (
          append_assoc (d.format i) (comma ∷ separated (d.format j) (map d.format is)) (comma ∷ []))

  join_ints_lem :
      (i : I) (is : List I) → join_ints d (i ∷ is) ≡ separated (d.format i) (map d.format is)
  unfolding join_ints separated
  join_ints_lem i [] = refl
  join_ints_lem i (j ∷ is) =
      ap (truncated d) (written_lem i (j ∷ is))
      ∙ truncated_lem (separated (d.format i) (map d.format (j ∷ is))) comma

  module _ (laws : IsDecimal d) where
    map-AllCommaFree : (is : List I) → AllCommaFree (map d.format is)
    unfolding AllCommaFree
    map-AllCommaFree [] = tt
    map-AllCommaFree (i ∷ is) = (laws.format_comma i, map-AllCommaFree is)

    parse_all-map : (is : List I) → parse_all d (map d.format is) ≡ some is
    unfolding parse_all
    parse_all-map [] = refl
    parse_all-map (i ∷ is) = rw (laws.parse_format i, parse_all-map is) refl

    split_some : (s : Bytes) → (length s == 0) ≡ false → split_ints d s ≡ parse_all d (d.split s)
    unfolding split_ints
    split_some [] h = ground (arith, h)
    split_some (b ∷ s) h = refl

    separated_some :
        (s : Bytes) (ss : List Bytes)
        → (length s == 0) ≡ false
        → (length (separated s ss) == 0) ≡ false
    unfolding separated
    separated_some s [] h = h
    separated_some s (t ∷ ts) h = ground (arith, h, length-append s (comma ∷ separated t ts))

    -- `SplitInts` reads back every slice that `JoinInts` wrote, the empty one too, where strconv and
    -- strings behave as documented.
    pub split_ints-join_ints : (is : List I) → split_ints d (join_ints d is) ≡ some is
    unfolding split_ints join_ints
    split_ints-join_ints [] = refl
    split_ints-join_ints (i ∷ is) =
        let s = separated (d.format i) (map d.format is) in
        ap (split_ints d) (join_ints_lem i is)
        ∙ split_some s (separated_some (d.format i) (map d.format is) (laws.format_some i))
        ∙ ap (parse_all d) (
            laws.split_separated (d.format i) (map d.format is) (laws.format_comma i)
              (map-AllCommaFree is))
        ∙ parse_all-map (i ∷ is)
