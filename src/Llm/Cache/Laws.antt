-- ===== src/Llm/Cache/Laws.antt =====
-- The semantic cache as a bounded store that never forgets.
use toy_brain.Prelude.{
  ◌+◌, ◌≤◌, ◌<◌, ◌≡◌, refl, true, none, some, [], ◌∷◌, arith, Text, length, take, eq_text_refl,
  eq_text_iff,
}
use toy_brain.Prelude.Outcome.{ok}
use toy_brain.Prelude.Dict.{Dict, get, put, get-put}
use toy_brain.Tlica.PtCns.{ConsistencyEval, damage, neutral, preserve}
use toy_brain.Kernel.Exec.{World, CacheFile, fields, record_event}
use toy_brain.Llm.Parse.{name_of, by_name}
use toy_brain.Llm.Cache.{max_entries, l2_store, l2_lookup, read_fields, read_file, write_file}

by_name-name_of : (e : ConsistencyEval) → by_name (name_of e) ≡ some e
unfolding by_name
by_name-name_of damage = refl
by_name-name_of neutral = refl
by_name-name_of preserve = refl

length-put {ℓ} : {V : Type ℓ} (k : Text) (v : V) (d : Dict V) → length (put k v d) ≤ length d + 1
unfolding put
length-put k v [] = omega arith
length-put k v ((j, w) ∷ d) = ground (arith, length-put k v d)

abbrev pub entry : Text → ConsistencyEval → CacheFile
entry key e = fields (some (take 8 key)) (some (name_of e))

pub read-entry :
    (key : Text) (e : ConsistencyEval)
    → read_fields key (some (take 8 key)) (some (name_of e)) ≡ some e
unfolding read_fields
read-entry key e = ground (arith, by_name-name_of e, eq_text_refl (take 8 key))

module _ {C : Type 0} (key : Text) (e : ConsistencyEval) (content_id : Text) (w : World C) where
  -- A store changes no file that is there, not even that of its own key.
  pub l2_store-keeps :
      (k : Text) (file : CacheFile)
      → get k w.cache ≡ some file
      → get k (l2_store key e content_id w).1.cache ≡ some file
  unfolding l2_store write_file record_event
  l2_store-keeps k file h = ground (arith, get-put key k (entry key e) w.cache, eq_text_iff k key)

  pub l2_store-client : (l2_store key e content_id w).1.client ≡ w.client
  unfolding l2_store write_file record_event
  l2_store-client = ground arith

  -- A store on a cache of at most `SEMANTIC_CACHE_MAX_ENTRIES` files leaves at most as many,
  -- whatever it is given.
  pub l2_store-bounded :
      length w.cache ≤ max_entries → length (l2_store key e content_id w).1.cache ≤ max_entries
  unfolding l2_store write_file record_event
  l2_store-bounded h = ground (arith, length-put key (entry key e) w.cache)

  -- Below the bound a new entry is written as it is looked up.
  pub l2_store-writes :
      w.cache_dir_ok ≡ true
      → get key w.cache ≡ none
      → length w.cache < max_entries
      → (l2_store key e content_id w).0 ≡ ok tt
        × get key (l2_store key e content_id w).1.cache ≡ some (entry key e)
  unfolding l2_store write_file record_event
  l2_store-writes dir fresh room =
      ground (arith, get-put key key (entry key e) w.cache, eq_text_refl key)

-- A look-up of such an entry returns its evaluation and asks nobody.
pub l2_lookup-entry :
    {C : Type 0} (key : Text) (e : ConsistencyEval) (content_id : Text) (w : World C)
    → get key w.cache ≡ some (entry key e)
    → ((l2_lookup key content_id w).0 ≡ ok (some e))
      × ((l2_lookup key content_id w).1.client ≡ w.client)
      × ((l2_lookup key content_id w).1.cache ≡ w.cache)
unfolding l2_lookup read_file record_event
l2_lookup-entry key e content_id w h = ground (arith, h, read-entry key e)

-- If the directory can be made, the key has no file and there is room, what is stored under the key
-- is looked up again, for any content.
pub l2_lookup-l2_store :
    {C : Type 0} (key : Text) (e : ConsistencyEval) (content_id other_id : Text) (w : World C)
    → w.cache_dir_ok ≡ true
    → get key w.cache ≡ none
    → length w.cache < max_entries
    → (l2_lookup key other_id (l2_store key e content_id w).1).0 ≡ ok (some e)
l2_lookup-l2_store key e content_id other_id w dir fresh room =
    (l2_lookup-entry key e other_id (l2_store key e content_id w).1
      (l2_store-writes key e content_id w dir fresh room).1).0
