-- ===== src/Split/Tests.antt =====
-- Splitting "a,,b" at commas.
use network_demo.Base.{ℕ, ◌≡◌, List, [], ◌∷◌, arith}
use network_demo.Split.{done, string_split}
use network_demo.Split.Laws.{join, AllLack, join-string_split, string_split-join}

abbrev text : List ℕ
text = 97 ∷ 44 ∷ 44 ∷ 98 ∷ []

join-string_split_example :
    (out : List (List ℕ)) × (string_split text 44 ≡ done out)
    × (join 44 out ≡ text)
    × AllLack 44 out
join-string_split_example = join-string_split text 44 (omega arith)

string_split-join_example :
    string_split (join 44 ((97 ∷ []) ∷ [] ∷ (98 ∷ []) ∷ [])) 44
    ≡ done ((97 ∷ []) ∷ [] ∷ (98 ∷ []) ∷ [])
unfolding join
string_split-join_example =
    string_split-join 44 (97 ∷ []) ([] ∷ (98 ∷ []) ∷ [])
      ((omega arith, tt), (tt, ((omega arith, tt), tt))) (omega arith)
