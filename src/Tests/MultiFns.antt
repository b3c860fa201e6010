-- ===== src/Tests/MultiFns.antt =====
-- Multimethods on a hierarchy of numbers in which each is a kind of the greater ones up to a limit.
use baisilisp.Base.{
  ◌≡◌, refl, ℕ, true, false, ◌&&◌, ◌||◌, leb, some, List, [], ◌∷◌, ℕ_discrete, arith, All,
}
use baisilisp.Tests.Maps.{dicts, dicts-MapLaws, fill_dicts}
use baisilisp.Base.Dict.{get, put}
use baisilisp.MultiFn.{
  Hierarchy, MultiFunction, make_multi, get_method, pick, precedes, has_preference, consider,
  confirm, is_better,
}
use baisilisp.MultiFn.Coherence.{Call, gets, adds, prefers, get_method-run, run, uncached}
use baisilisp.MultiFn.Best.{search_best, Beats, Applies}

abbrev numbers : Hierarchy ℕ ℕ
numbers = record { isa = λ h a b. leb a b && (leb b h || leb b a); is_nil = λ _. false }

abbrev calls : List (Call ℕ ℕ ℕ)
calls = adds 9 2 20 ∷ adds 9 5 50 ∷ gets 9 1 ∷ prefers 9 5 2 ∷ gets 9 1 ∷ gets 4 1 ∷ []

get_method-run_example :
    (get_method dicts ℕ_discrete ℕ_discrete numbers 9
      (run dicts ℕ_discrete ℕ_discrete numbers dicts-MapLaws calls
        (make_multi dicts ℕ_discrete ℕ_discrete numbers 0 9))
      1).0
    ≡ uncached dicts ℕ_discrete ℕ_discrete numbers dicts-MapLaws 9
        (run dicts ℕ_discrete ℕ_discrete numbers dicts-MapLaws calls
          (make_multi dicts ℕ_discrete ℕ_discrete numbers 0 9))
        1
get_method-run_example =
    get_method-run dicts ℕ_discrete ℕ_discrete numbers dicts-MapLaws 0 9 calls 9 1

abbrev two_methods : MultiFunction dicts ℕ_discrete ℕ_discrete numbers
two_methods = record {
  default = 0;
  methods = dicts.from_coll ((2, 20) ∷ (5, 50) ∷ []);
  cache = dicts.empty;
  prefers = [];
  cached_hierarchy = 9;
}

two_methods-chain :
    (i j k : ℕ)
    → precedes dicts ℕ_discrete ℕ_discrete numbers 9 two_methods i j ≡ true
    → precedes dicts ℕ_discrete ℕ_discrete numbers 9 two_methods j k ≡ true
    → precedes dicts ℕ_discrete ℕ_discrete numbers 9 two_methods i k ≡ true
unfolding precedes has_preference get
two_methods-chain i j k p q = ground (arith, p, q)

search_best_example :
    All
      (λ kv. Beats dicts ℕ_discrete ℕ_discrete numbers 9 two_methods 1 (some (2, 20)) kv.0)
      (dicts.items two_methods.methods)
    × Applies dicts ℕ_discrete ℕ_discrete numbers 9 two_methods 1
        (dicts.items two_methods.methods)
        (some (2, 20))
unfolding pick consider confirm is_better precedes has_preference ℕ_discrete get put fill_dicts
search_best_example =
    search_best dicts ℕ_discrete ℕ_discrete numbers 9 two_methods 1 (λ _. refl) two_methods-chain
      (some (2, 20)) refl
