-- ===== src/Fetch/Examples.antt =====
-- The theorems on the end of a fetch at a concrete file that two fallback nodes have to replace.
use donkey.Base.{
  arith, ℕ, ◌≡◌, refl, true, Option, none, some, List, [], ◌∷◌, ◌++◌, drop, replicate, ok, err,
}
use donkey.Error.{upstream}
use donkey.Transfer.{
  Reply, Frame, arrives, breaks, stream_response_to_file, write_frames, append_response_to_file,
  content_range_matches,
}
use donkey.Transfer.Begins.{IsHonest}
use donkey.Fetch.Resume.{
  download_resume, resume_groups, resume_group, resume_candidates, receive_resume,
}
use donkey.Fetch.Resumed.{IsBeginning, download_resume_lem}
use donkey.Fetch.{
  sha256_prefix, is_sha256, settle, check_size, check_digest, recover_verified_blob, recover_loop,
  verify_file, same_bytes, download_whole, whole_groups, whole_group, whole_candidates, try_whole,
}
use donkey.Fetch.Verified.{settle-HasDigest}

-- A checksum in the place of the hash: the first byte, 64 times.
abbrev checksum : List ℕ → List ℕ
checksum [] = replicate 64 48
checksum (c ∷ content) = replicate 64 c

abbrev digest_97 : List ℕ
digest_97 = sha256_prefix ++ replicate 64 97

abbrev answer : List ℕ → Reply
answer content = ok (record {
  status = 200;
  content_length = some 2;
  content_range = none;
  body = arrives content ∷ [];
  opens = true;
})

abbrev wrong : List ℕ
wrong = 99 ∷ 98 ∷ []

-- The first node is broken, the second has the blob.
abbrev fallback : List (List (List (Option Reply)))
fallback =
    ((some (err (upstream "refused")) ∷ []) ∷ []) ∷ ((some (answer (97 ∷ 98 ∷ [])) ∷ []) ∷ []) ∷ []

settle-HasDigest_example :
    (content : List ℕ) × ((settle checksum
        (some 2)
        (some digest_97)
        2
        fallback
        fallback
        (some wrong)).0
      ≡ some content)
    × (checksum content ≡ drop 7 digest_97)
    × (is_sha256 digest_97 ≡ true)
unfolding settle check_size check_digest recover_verified_blob recover_loop verify_file same_bytes
    download_whole whole_groups whole_group whole_candidates try_whole stream_response_to_file
    write_frames
settle-HasDigest_example =
    settle-HasDigest checksum (some 2) digest_97 2 fallback fallback (some wrong) refl

abbrev blob : List ℕ
blob = 11 ∷ 12 ∷ 13 ∷ []

-- The first node has no free lease, the second breaks off after a byte, the third ends it.
abbrev rest_from : ℕ → List Frame → Reply
rest_from start body = ok (record {
  status = 206;
  content_length = none;
  content_range = some (record { first_byte = start; last_byte = 2; complete_length = 3 });
  body = body;
  opens = true;
})

abbrev resume_schedule : List (List (List (Option Reply)))
resume_schedule =
    ((none
        ∷ some (rest_from 1 (arrives (12 ∷ []) ∷ breaks ∷ []))
        ∷ some (rest_from 2 (arrives (13 ∷ []) ∷ []))
        ∷ [])
      ∷ [])
    ∷ []

second-IsHonest : IsHonest blob (rest_from 1 (arrives (12 ∷ []) ∷ breaks ∷ []))
second-IsHonest first last complete s m =
    let e : 1 ≡ first = ground arith in
    let e' : 2 ≡ last = ground arith in rw (← e, ← e') (13 ∷ [], refl)

third-IsHonest : IsHonest blob (rest_from 2 (arrives (13 ∷ []) ∷ []))
third-IsHonest first last complete s m =
    let e : 2 ≡ first = ground arith in
    let e' : 2 ≡ last = ground arith in rw (← e, ← e') ([], refl)

download_resume_lem_example :
    IsBeginning blob (download_resume 3 (some (11 ∷ [])) resume_schedule).0
    × ((download_resume 3 (some (11 ∷ [])) resume_schedule).1 ≡ some (ok tt)
        → (download_resume 3 (some (11 ∷ [])) resume_schedule).0 ≡ some blob)
download_resume_lem_example =
    download_resume_lem blob (some (11 ∷ [])) resume_schedule (omega arith) (omega arith)
      (12 ∷ 13 ∷ [], refl) (((tt, (second-IsHonest, (third-IsHonest, tt))), tt), tt)

resumed : download_resume 3 (some (11 ∷ [])) resume_schedule ≡ (some blob, some (ok tt))
unfolding download_resume resume_groups resume_group resume_candidates receive_resume
    content_range_matches append_response_to_file stream_response_to_file write_frames
resumed = refl
