-- ===== src/Caching/Tests.antt =====
-- Runs of a cache of one entry, and the theorem at it.
use quantum_database.Prelude.{◌≡◌, refl, [], ◌∷◌, some, none, lookup, insert, remove}
use quantum_database.Caching.Results
use quantum_database.Caching.Results.{ResultCache, new_cache}

program : Unit {0}
unfolding lookup insert remove Results.get Results.put Results.invalidate
program = tt

abbrev one : ResultCache
one = record (new_cache 1 60) { cache = ("k", ("1", 5)) ∷ [] }

abbrev next : ResultCache
next = record one { cache = ("j", ("2", 9)) ∷ [] }

-- An entry is found until its time is over.
found : ((Results.get "k" 65 one).1 ≡ some "1") × ((Results.get "k" 66 one).1 ≡ none)
unfolding program
found = (refl, refl)

-- Invalidation goes by a part of the key.
invalidated : (Results.invalidate (some "k") one).cache ≡ []
unfolding program
invalidated = refl
