-- ===== src/Sync/Tests.antt =====
-- A store of records with one file, and the round trip of an acknowledgment on it.
use solstone_tmux.Sync.Segments.{valid_segment_name, valid_segment_name-finalized}
use solstone_tmux.Segment.Length.{finalized_name}
use solstone_tmux.Recovery.Names.{valid_time_name}
use solstone_tmux.Observer.Open.{Moment, stem_of}
use solstone_tmux.Base.{
  ℕ, suc, zero, ◌≡◌, refl, ap, ◌∙◌, true, List, [], ◌∷◌, ◌++◌, Text, codes, Option, none, some, Map,
  get, insert, get-insert, length, take, drop, take-length-append, text_eq, text_eq_iff, arith,
}
use solstone_tmux.Journal.{AcknowledgedFile}
use solstone_tmux.Journal.Collect.{has_text}
use solstone_tmux.Journal.Tests.{sent, written_file, upload, upload-valid}
use solstone_tmux.Sync.{
  SegmentCandidate, JournalIdentity, AckRecord, Store, IsStore, read_ack_record, ack_record_of,
  write_ack_record, write_printed,
}
use solstone_tmux.Sync.Backoff.{success, failure, run, run_lem}
use solstone_tmux.Sync.Ledger.{read_ack_record-written}

-- Texts behind each other, each behind its length.
abbrev pack : List Text → List ℕ
pack [] = []
pack (t ∷ ts) = length t ∷ (t ++ pack ts)

abbrev unpack : ℕ → List ℕ → List Text
unpack zero bytes = []
unpack (suc k) [] = []
unpack (suc k) (n ∷ bytes) = take n bytes ∷ unpack k (drop n bytes)

drop-length-append : (xs ys : List ℕ) → drop (length xs) (xs ++ ys) ≡ ys
drop-length-append [] ys = refl
drop-length-append (x ∷ xs) ys = drop-length-append xs ys

unpack-pack : (ts : List Text) → unpack (length ts) (pack ts) ≡ ts
unpack-pack [] = refl
unpack-pack (t ∷ ts) =
    rw (take-length-append t (pack ts), drop-length-append t (pack ts), unpack-pack ts) refl

abbrev fields : AckRecord → AcknowledgedFile → List Text
fields r f =
    r.location
    ∷ r.day
    ∷ r.stream
    ∷ r.segment
    ∷ r.stored_key
    ∷ r.instance_id
    ∷ r.ca_fp_prefix_hex
    ∷ r.pairing_generation_hex
    ∷ r.proof
    ∷ f.submitted
    ∷ f.written
    ∷ (f.size ∷ [])
    ∷ f.sha256
    ∷ f.disposition
    ∷ []

abbrev build : List Text → Option AckRecord
build (a ∷ b ∷ c ∷ d ∷ e ∷ f ∷ g ∷ h ∷ i ∷ j ∷ k ∷ (l ∷ []) ∷ m ∷ n ∷ []) = some (record {
  location = a;
  day = b;
  stream = c;
  segment = d;
  stored_key = e;
  instance_id = f;
  ca_fp_prefix_hex = g;
  pairing_generation_hex = h;
  proof = i;
  files = (record { submitted = j; written = k; size = l; sha256 = m; disposition = n }) ∷ [];
})
build _ = none

abbrev print_one : AckRecord → List AcknowledgedFile → Option (List ℕ)
print_one r (f ∷ []) = some (pack (fields r f))
print_one r _ = none

abbrev parse : List ℕ → Option AckRecord
parse bytes = build (unpack 14 bytes)

print_one-parse :
    (r : AckRecord) (files : List AcknowledgedFile) (bytes : List ℕ)
    → print_one r files ≡ some bytes
    → parse bytes ≡ some (record r { files = files })
print_one-parse r [] bytes e = ground (arith, e)
print_one-parse r (f ∷ g ∷ rest) bytes e = ground (arith, e)
print_one-parse r (f ∷ []) bytes e =
    let same : pack (fields r f) ≡ bytes = ground (arith, e) in
    rw⁻¹ same (ap build (unpack-pack (fields r f)))

abbrev here : Store (Map (List ℕ))
here = record {
  ensure_private_directory = λ path l. (true, l);
  atomic_write_bytes = λ path bytes l. (true, insert path bytes l);
  read = λ path l. get path l;
  remove_file = λ path l. l;
  print = λ r. print_one r r.files;
  parse = parse;
}

here-IsStore : IsStore here
here-IsStore = record {
  reads = λ path bytes l e. get-insert path path bytes l ∙ ground (arith, text_eq_iff path path);
  parses = λ r bytes e. print_one-parse r r.files bytes e;
}

abbrev candidate : SegmentCandidate
candidate = record {
  day = codes "20260101";
  stream = codes "host.tmux";
  segment = codes "120000_005";
}

abbrev identity : JournalIdentity
identity = record {
  instance_id = codes "i";
  ca_fp_prefix_hex = codes "ab";
  pairing_generation_hex = codes "cd";
}

read_ack_record-written_example :
    let l' =
      (write_ack_record here (codes "l") candidate identity (codes "k") (written_file ∷ []) []).1 in
    read_ack_record here (codes "l") candidate identity (sent ∷ []) l'
    ≡ (some (ack_record_of (codes "l") candidate identity (codes "k") (written_file ∷ [])), l')
unfolding has_text write_ack_record write_printed ack_record_of text_eq
read_ack_record-written_example =
    read_ack_record-written here (codes "l") candidate identity (codes "k") upload
      (written_file ∷ []) (sent ∷ []) [] here-IsStore (refl, tt) (refl, tt) upload-valid refl

run_lem_example :
    run (failure 100 ∷ failure 50 ∷ success ∷ failure 10 ∷ [])
    ≡ some (record { next_delay = 2; deadline = some 130 })
run_lem_example = run_lem (failure 100 ∷ failure 50 ∷ success ∷ failure 10 ∷ [])

valid_segment_name-finalized_example :
    let noon : Moment ℕ = record { date = 0; hour = 12; minute = 0; second = 0 } in
    (valid_time_name (stem_of noon) ≡ true)
    × (valid_segment_name (finalized_name (stem_of noon) 300_000_000_000) ≡ true)
valid_segment_name-finalized_example =
    valid_segment_name-finalized (record { date = 0; hour = 12; minute = 0; second = 0 })
      300_000_000_000 (record { hours = omega arith; minutes = omega arith; seconds = omega arith })
