-- ===== src/Examples/Texts.antt =====
-- IN lists of a few texts: the table that is built from them, and from an array with a null.
use pg_jitter.Prelude.Int.{negsuc}
use pg_jitter.Prelude.{
  ℕ, ◌≡◌, refl, true, false, none, some, [], ◌∷◌, arith, take, length, ◌+◌, ◌==◌, if◌then◌else◌,
}
use pg_jitter.Like.Pattern.{Bytes}
use pg_jitter.InList.HashTable.{pg_jitter_crc32c_sw_raw}
use pg_jitter.OpenTable.Defs.{built}
use pg_jitter.OpenTable.Filled.{In}
use pg_jitter.OpenTable.Membership.{Answers}
use pg_jitter.ScalarArray.Defs.{ArrayType, TypeInfo}
use pg_jitter.ScalarArray.Stored.{Stores, att_isnull}
use pg_jitter.TextHash.Defs.{TextHashTable, Hashes, text_hash_build, text_hash_probe}
use pg_jitter.TextHash.Membership.{probe-build_text}
use pg_jitter.TextHash.FromArray.{BuiltFrom, text_hash_build_from_array, from_array_answers}
use pg_jitter.Examples.Liked.{search_bytes}

abbrev hashes : Hashes
hashes = record { crc32c_raw = pg_jitter_crc32c_sw_raw; sz_hash = λ text seed. length text + seed }

abbrev a : Bytes
a = b'a' ∷ []

abbrev bc : Bytes
bc = b'b' ∷ b'c' ∷ []

probe-build_text_example :
    (ht : TextHashTable) × (text_hash_build search_bytes hashes 1073741823 (a ∷ bc ∷ []) 2 false
      ≡ built ht)
    × Answers (text_hash_probe search_bytes hashes bc ht) (In bc (take 2 (a ∷ bc ∷ [])))
probe-build_text_example =
    probe-build_text search_bytes hashes 1073741823 (a ∷ bc ∷ []) 2 false bc (omega arith)
      (omega arith) (omega arith) (omega arith)

-- The datum 1 is a pointer to the first text, any other to the second.
abbrev get_text : ℕ → Bytes
get_text d = if d == 1 then a else bc

abbrev get_type : ℕ → TypeInfo
get_type elemtype = record { typlen = negsuc 0; typbyval = false; typalign = 4 }

abbrev stored_texts : ArrayType
stored_texts = record {
  nitems = 3;
  elemtype = 25;
  null_bitmap = some (5 ∷ []);
  data_area = 1 ∷ 2 ∷ [];
  stored_as = record { typlen = negsuc 0; typbyval = false; typalign = 4 };
}

stored_texts-Stores : Stores stored_texts (some 1 ∷ none ∷ some 2 ∷ [])
unfolding att_isnull
stored_texts-Stores = (refl, refl, (refl, (refl, (refl, tt))))

from_array_answers_example :
    BuiltFrom search_bytes hashes get_type get_text
      (text_hash_build_from_array search_bytes hashes get_type get_text 1073741823 true
        stored_texts)
      (some 1 ∷ none ∷ some 2 ∷ [])
      bc
from_array_answers_example =
    from_array_answers search_bytes hashes get_type get_text 1073741823 stored_texts
      (some 1 ∷ none ∷ some 2 ∷ []) bc stored_texts-Stores refl refl (omega arith) (omega arith)
      (omega arith)
