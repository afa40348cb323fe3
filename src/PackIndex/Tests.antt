-- ===== src/PackIndex/Tests.antt =====
-- Runs of PackIndex of src/store/pack.rs on a table of two entries.
use bole.Base.{◌≡◌, refl, arith, ◌↔◌, some, List, [], ◌∷◌, Bytes, ok}
use bole.Base.Slices.{replicate}
use bole.Refs.{ObjectId}
use bole.Pack.{PackEntry}
use bole.Pack.Tests.{sample_hash, sample_hash-Digests32}
use bole.PackIndex.{PackIndex, build, encode, parse, lookup}
use bole.PackIndex.Lookup.{Located, lookup_iff}
use bole.PackIndex.RoundTrip.{Fits, parse-encode}
use bole.PackIndex.Sort.{DistinctIds, Holds, lookup-build, build-IsAscending}

abbrev first_id : ObjectId
first_id = 3 ∷ replicate 31 0

abbrev second_id : ObjectId
second_id = 1 ∷ replicate 31 9

abbrev entries : List PackEntry
entries =
    record { id = first_id; offset = 32; len = 50 }
    ∷ record { id = second_id; offset = 82; len = 61 }
    ∷ []

abbrev digest : Bytes
digest = replicate 32 5

abbrev index : PackIndex
index = record { entries = entries; pack_digest = digest }

entries-DistinctIds : DistinctIds entries
entries-DistinctIds = (((λ p. cc), tt), (tt, tt))

lookup_iff_example :
    (lookup (build entries digest) first_id ≡ some (32, 50))
    ↔ Located
        (build entries digest)
        (build-IsAscending entries digest entries-DistinctIds)
        first_id
        32
        50
lookup_iff_example =
    lookup_iff (build entries digest) (build-IsAscending entries digest entries-DistinctIds)
      first_id 32 50

lookup-build_example :
    (lookup (build entries digest) second_id ≡ some (82, 61)) ↔ Holds entries second_id 82 61
lookup-build_example = lookup-build entries digest second_id 82 61 entries-DistinctIds

index-Fits : Fits index
index-Fits =
    (omega arith, ((refl, omega arith, omega arith), ((refl, omega arith, omega arith), tt)), refl)

parse-encode_example : parse sample_hash (encode sample_hash index) ≡ ok index
parse-encode_example = parse-encode sample_hash sample_hash-Digests32 index index-Fits
