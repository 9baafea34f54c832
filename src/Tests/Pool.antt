-- ===== src/Tests/Pool.antt =====
-- Two objects of iterators of different types, one in place and one in a box.
use dyn_utils.Prelude.{ℕ, zero, suc, ◌≡◌, refl, ◌∙◌, none, some, List, [], ◌∷◌, length}
use dyn_utils.Memory.{Bytes, RustType, ok, pure, ◌>>=◌}
use dyn_utils.Storage.RawOrBox.{raw_or_box_storage}
use dyn_utils.Object.Laws.{destroyed}
use dyn_utils.Iterator.{IsIterator}
use dyn_utils.Iterator.Pool.{
  Op, Source, advance, all_ended, drop_all, drop_at, dropped_from, effect, insert_at, inserted,
  extract, final, items, make, perform_all, take, taken,
}
use dyn_utils.Iterator.Pool.Laws.{pool-life}
use dyn_utils.Tests.Inputs.{bump, byte, empty_heap, variant, word}
use dyn_utils.Tests.Objects.{law, IsPlace-64}
use dyn_utils.Tests.Futures.{remaining, take_nth, take_one}

length-take_one : (v : Bytes) → length (take_one v).0 ≡ length v
length-take_one [] = refl
length-take_one (zero ∷ v) = refl
length-take_one (suc n ∷ v) = refl

length-take_nth : (n : ℕ) (v : Bytes) → length (take_nth n v).0 ≡ length v
length-take_nth zero v = length-take_one v
length-take_nth (suc n) v = length-take_nth n (take_one v).0 ∙ length-take_one v

-- An iterator of any size that counts its first byte down.
abbrev counting_on : (T : RustType) → IsIterator T ℕ
counting_on T = record {
  next = take_one;
  size_hint = remaining;
  nth = take_nth;
  next_sized = λ v e. length-take_one v ∙ e;
  nth_sized = λ n v e. length-take_nth n v ∙ e;
}

abbrev small : Source ℕ
small = record { source_type = byte; impl = counting_on byte; value = 2 ∷ []; sized = refl }

abbrev large : Source ℕ
large = record {
  source_type = word;
  impl = counting_on word;
  value = 5 ∷ 0 ∷ 0 ∷ 0 ∷ 0 ∷ 0 ∷ 0 ∷ 0 ∷ [];
  sized = refl;
}

abbrev session : List (Op ℕ)
session = make small ∷ make large ∷ take 0 ∷ take 1 ∷ insert_at 1 small ∷ take 0 ∷ drop_at 1 ∷ []

pool-life_example :
    (perform_all (raw_or_box_storage bump variant) 64 session [] >>= λ r.
    drop_all (raw_or_box_storage bump variant) 64 r.0 >>= λ _. pure r.1)
      empty_heap
    ≡ ok (none ∷ none ∷ some 4 ∷ some 1 ∷ none ∷ some 1 ∷ none ∷ []) (
        destroyed byte (1 ∷ []) (
          destroyed byte (1 ∷ []) (destroyed word (4 ∷ 0 ∷ 0 ∷ 0 ∷ 0 ∷ 0 ∷ 0 ∷ 0 ∷ []) empty_heap)))
unfolding items final effect taken dropped_from inserted extract advance all_ended
pool-life_example = pool-life law session empty_heap 64 IsPlace-64
