-- ===== src/Tests/Caching.antt =====
-- Examples on the caches.
use hapudding.Base.{
  ◌≡◌, ◌+◌, refl, [], ◌∷◌, ◌&&◌, true, false, none, some, if◌then◌else◌, length, arith,
}
use hapudding.Base.Int.{pos}
use hapudding.Text.{Bytes, codes, str_eq}
use hapudding.Lru.Defs.{empty, store_item, evict_loop, push_front, remove_key, remove_locked, evict}
use hapudding.Lru.Elements.{back}
use hapudding.Lru.Invariant
use hapudding.Lru.Invariant.{empty-IsValid}
use hapudding.Lru.Fit.{get as get_item, items, fit, erase}
use hapudding.Lru.Refinement.{room, evict_loop_lem}
use hapudding.Lru.Store.{store_item_lem}
use hapudding.LibCache.Cache.{
  Entry, Item, key_of, size_of, Cache, new, get, put, drop_token, cache_key,
}
use hapudding.LibCache.Invariant.{
  IsValid, gets, puts, drops, run, run-IsValid, put-IsValid, new-IsValid,
}
use hapudding.LibCache.Lookup.{held, served, kept_item, get-served, put-items}
use hapudding.LibCache.Tokens.{held-drop_token}
use hapudding.ImgCache.Types.{Entry as Image}
use hapudding.ImgCache.Cache as Images
use hapudding.ImgCache.Types.{DiskMeta}
use hapudding.ImgCache.Bounds
use hapudding.ImgCache.Bounds.{run_images-IsValid}
use hapudding.ImgCache.Frame
use hapudding.Tests.Data.{library_limits, image_limits}

abbrev entry : Entry
entry = record {
  backend = codes "alpha";
  status = 200;
  header = [];
  body = codes "four";
  content_type = codes "application/json";
  hits = 0;
  stored_at = 0;
  expires_at = 0;
}

abbrev one_entry : Cache
one_entry = (put (new library_limits) 5 (codes "k") entry).1

one_entry-IsValid : IsValid one_entry
one_entry-IsValid =
    put-IsValid (new library_limits) 5 (codes "k") entry (new-IsValid library_limits)

get-served_example : (get one_entry 7 (codes "k")).0 ≡ served 7 (held one_entry (codes "k"))
get-served_example = get-served one_entry 7 (codes "k") one_entry-IsValid

put-items_example :
    ((put one_entry 6 (codes "j") entry).0 ≡ true)
    × (items (put one_entry 6 (codes "j") entry).1.lru.ll
        ≡ kept_item one_entry 6 (codes "j") entry
          ∷ fit size_of
              (room one_entry.cfg.max_bytes 4)
              (erase key_of (codes "j") (items one_entry.lru.ll)))
unfolding put
put-items_example = put-items one_entry 6 (codes "j") entry one_entry-IsValid

run-IsValid_example : IsValid (
    run
      (new library_limits)
      (puts 1 (codes "k") entry ∷ gets 2 (codes "k") ∷ drops (codes "alpha") (codes "t") ∷ []))
run-IsValid_example =
    run-IsValid library_limits
      (puts 1 (codes "k") entry ∷ gets 2 (codes "k") ∷ drops (codes "alpha") (codes "t") ∷ [])

abbrev keyed : Bytes
keyed = cache_key (codes "a") (codes "t") (codes "GET") (codes "/p") []

held-drop_token_example : held (drop_token one_entry (codes "a") (codes "t")) keyed ≡ (
    if str_eq (codes "a") (codes "a") && str_eq (codes "t") (codes "t")
    then none
    else held one_entry keyed)
held-drop_token_example =
    held-drop_token one_entry (codes "a") (codes "t") (codes "a") (codes "t") (codes "GET")
      (codes "/p") [] one_entry-IsValid refl refl (ground arith, tt) (ground arith, tt)
      (ground arith, tt) (ground arith, tt)

abbrev image : Image
image = record {
  backend = codes "alpha";
  status = 200;
  header = [];
  body = codes "four";
  etag = [];
  last_modified = [];
  content_type = codes "image/png";
  hits = 0;
  stored_at = 0;
  expires_at = 0;
}

-- The metadata of an image of four bytes that the directory holds.
abbrev info : DiskMeta
info = record {
  key = codes "k";
  backend = codes "alpha";
  status = 200;
  header = [];
  etag = [];
  last_modified = [];
  content_type = codes "image/png";
  stored_at = 0;
  expires_at = 0;
  size = 4;
}

run_images-IsValid_example : Frame.IsValid (
    Bounds.run
      (Images.new image_limits
        (λ _. some info)
        (λ _. some (codes "four"))
        (λ _. false)
        (λ s. s)
        0
        (codes "h" ∷ []))
      (Bounds.puts 1 (codes "k") image ∷ Bounds.gets 2 (codes "k") ∷ []))
run_images-IsValid_example =
    run_images-IsValid image_limits (λ _. some info) (λ _. some (codes "four")) (λ _. false)
      (λ s. s) 0 (codes "h" ∷ []) (Bounds.puts 1 (codes "k") image ∷ Bounds.gets 2 (codes "k") ∷ [])
      (λ _. refl)

abbrev two_seconds : Bytes
two_seconds = codes "public, max-age=2"

kept :
    held (put one_entry 6 (codes "j") entry).1 (codes "k")
    ≡ some (kept_item (new library_limits) 5 (codes "k") entry)
unfolding held put store_item evict evict_loop push_front remove_key remove_locked back str_eq
    get_item
kept = refl

abbrev item : Item
item = record { key = codes "k"; ent = entry }

store_item_lem_example :
    let r = store_item key_of size_of empty item (pos 10) in
    Invariant.IsValid key_of size_of r.0
    × (items r.0.ll ≡ item ∷ fit size_of 6 (erase key_of (codes "k") []))
    × (r.2 ≡ true)
store_item_lem_example =
    store_item_lem key_of size_of empty (empty-IsValid key_of size_of) item (pos 10) (omega arith)

evict_loop_lem_example :
    let r = evict_loop key_of size_of 1 one_entry.lru 8 (pos 10) in
    Invariant.IsValid key_of size_of r.0
    × (items r.0.ll ≡ fit size_of 2 (items one_entry.lru.ll))
    × (r.1 + length r.0.ll ≡ 1)
unfolding put store_item evict evict_loop push_front remove_key remove_locked back str_eq
evict_loop_lem_example =
    evict_loop_lem key_of size_of 1 one_entry.lru 8 (pos 10) one_entry-IsValid.agrees (omega arith)
      (omega arith)
