-- ===== src/HashTable/Tests.antt =====
-- Runs on small tables of numbers, and the theorems at concrete tables.
use mathlib.Core.Option.{some-injective}
use data_structures.Prelude.{
  ℕ, ◌%◌, ◌≡◌, refl, ap, arith, sym, true, Option, some, [], ◌∷◌, sub_ℕ, is_zero, pos, negsuc,
}
use data_structures.HashTable.{
  HashTable, create, insert, delete, print, capacity_line, size_line, bucket_id, empty_line,
}
use data_structures.HashTable.Entries.{IsValid}
use data_structures.HashTable.Correct.{Respects, Deleted, htable_delete_correct}
use data_structures.HashTable.Insert.{Outcome, htable_insert_correct}
use data_structures.HashTable.Reached.{Reaches, created, inserted, reaches-IsValid}

abbrev hash2 : ℕ → ℕ
hash2 k = k % 2

abbrev copy : ℕ → Option ℕ
copy k = some k

sub_ℕ-Respects : Respects hash2 sub_ℕ
sub_ℕ-Respects = record { same_hash = λ k k' h. ap hash2 (equal k k' h) }
  where
    equal : (k k' : ℕ) → is_zero (sub_ℕ k k') ≡ true → k ≡ k'
    equal k k' h = ground arith

copies : (k k' : ℕ) → copy k ≡ some k' → hash2 k' ≡ hash2 k
copies k k' e = ap hash2 (sym (some-injective k k' e))

-- the keys 4, 6 and 4 in the first of two buckets, 5 in the second
abbrev sample : HashTable ℕ ℕ
sample = record {
  capacity = 2;
  size = 0;
  buckets =
      (record { key = 4; value = 1 }
        ∷ record { key = 6; value = 2 }
        ∷ record { key = 4; value = 3 }
        ∷ [])
      ∷ (record { key = 5; value = 4 } ∷ [])
      ∷ [];
}

sample-IsValid : IsValid hash2 sample
sample-IsValid = (refl, ((refl, (refl, (refl, tt))), ((refl, tt), tt)))

-- Both entries with the key 4 are destroyed, and the answer is -4.
delete-sample :
    delete hash2 sub_ℕ (some sample) (some 4)
    ≡ some (
      some (record {
        capacity = 2;
        size = 0;
        buckets = (record { key = 6; value = 2 } ∷ []) ∷ (record { key = 5; value = 4 } ∷ []) ∷ [];
      }),
      record { key = 4; value = 1 } ∷ record { key = 4; value = 3 } ∷ [],
      negsuc 3,
    )
unfolding delete
delete-sample = refl

abbrev one_bucket : HashTable ℕ ℕ
one_bucket = record { capacity = 1; size = 0; buckets = [] ∷ [] }

create-one : create true true true 1 ≡ some (some one_bucket)
unfolding create
create-one = refl

print-one :
    print (some one_bucket) ≡ some (capacity_line 1 ∷ size_line 0 ∷ bucket_id 0 ∷ empty_line ∷ [])
unfolding print
print-one = refl

htable_insert_correct_example :
    Outcome hash2 copy copy sample 8 9 (insert hash2 copy copy (some sample) (some 8) (some 9))
htable_insert_correct_example =
    htable_insert_correct hash2 copy copy sample 8 9 copies sample-IsValid

htable_delete_correct_example : Deleted hash2 sub_ℕ sub_ℕ-Respects sample 4
htable_delete_correct_example =
    htable_delete_correct hash2 sub_ℕ sub_ℕ-Respects sample 4 sample-IsValid (omega arith)

-- the table after the insertion of 3 with the value 4
abbrev held : HashTable ℕ ℕ
held = record { capacity = 1; size = 0; buckets = (record { key = 3; value = 4 } ∷ []) ∷ [] }

abbrev hash1 : ℕ → ℕ
hash1 k = 0

insert-held : insert hash1 copy copy (some one_bucket) (some 3) (some 4) ≡ some (some held, pos 0)
unfolding insert
insert-held = refl

held-reached : Reaches hash1 sub_ℕ copy copy 1 held
held-reached =
    inserted one_bucket held (some 3) (some 4) (pos 0) (created one_bucket create-one) insert-held

hash1-Respects : Respects hash1 sub_ℕ
hash1-Respects = record { same_hash = λ k k' h. refl }

reaches-IsValid_example : IsValid hash1 held × (held.capacity ≡ 1) × (held.size ≡ 0)
reaches-IsValid_example =
    reaches-IsValid hash1 sub_ℕ copy copy hash1-Respects (λ k k' e. refl) 1 held held-reached
