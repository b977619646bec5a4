-- ===== src/Agent/Files/Transfers.antt =====
-- What a file holds while it is uploaded and when the upload is complete.
use roomler.Prelude.{
  ℕ, ◌≤◌, ◌≡◌, refl, Bool, true, false, none, some, List, [], ◌∷◌, ◌++◌, arith, ltb, Text,
  same_text_refl, length, length-append, Option-cases, inl, inr, ◌⊎◌,
}
use roomler.Agent.Files.Names.{unique_path, sanitize_filename}
use roomler.Agent.Files.Handler.{
  Files, Host, TransferState, Bytes, Disk, FilesError, done, failed, begin, chunk, end, abort,
  on_message, FilesIncoming, FilesOutgoing, begin_upload, end_upload, data_chunk, answer_chunk,
  Outcome, write, too_large, no_file, no_folder, accepted, complete, exists, write_chunk, report,
  max_transfer_bytes,
}

-- The transfer has received exactly the bytes, and its file holds them.
pub record Received (t : TransferState) (disk : Disk) (bytes : Bytes) : Type 0 where
  pub stored : disk t.path ≡ some bytes
  pub counted : t.received ≡ length bytes
  pub bounded : t.received ≤ t.expected
  pub limited : t.expected ≤ max_transfer_bytes
  pub reported : t.last_progress ≤ t.received

-- The transfer that is active, if any, has received the bytes.
abbrev pub Intact : Files → Bytes → Type 0
Intact f bytes = (t : TransferState) → f.state ≡ some t → Received t f.disk bytes

-- The bytes received for the active transfer after a message and the replies to it.
abbrev pub bytes_after : FilesIncoming → List FilesOutgoing → Bytes → Bytes
bytes_after (begin_upload id name size) (accepted i path ∷ rest) bytes = []
bytes_after (begin_upload id name size) _ bytes = bytes
bytes_after (end_upload id) replies bytes = bytes
bytes_after (data_chunk payload) replies bytes = bytes ++ payload

-- An upload that has been accepted.
abbrev pub started_upload : Host → Text → Text → ℕ → Files → Outcome Text × Files
started_upload host id name size f =
    let path = unique_path (exists f.disk) host.download_dir (sanitize_filename name) in
    (
      done path,
      record {
        state =
            some record { id = id; path = path; expected = size; received = 0; last_progress = 0 };
        disk = write path [] f.disk;
      },
    )

if_cases {ℓ} : {A : Type ℓ} (b : Bool) → (b ≡ true → A) → (b ≡ false → A) → A
if_cases true on off = on refl
if_cases false on off = off refl

module _ (host : Host) (f : Files) (bytes : Bytes) (v : Intact f bytes) where
  begin_cases :
      (id name : Text) (size : ℕ)
      → ((e : FilesError) × (begin host id name size f ≡ (failed e, f)))
        ⊎ ((size ≤ max_transfer_bytes)
            × (begin host id name size f ≡ started_upload host id name size f))
  unfolding begin
  begin_cases id name size =
      if_cases (ltb max_transfer_bytes size) (λ large. inl (too_large size, rw (large) refl))
        (λ small.
          if_cases host.makes_folder
            (λ folder.
              if_cases host.makes_file
                (λ file. inr (ground (arith, small), rw (small, folder, file) refl))
                (λ no. inl (no_file, rw (small, folder, no) refl)))
            (λ no. inl (no_folder, rw (small, no) refl)))

  begin-Intact :
      (id name : Text) (size : ℕ)
      → let (replies, f') = on_message host (begin_upload id name size) f in
        Intact f' (bytes_after (begin_upload id name size) replies bytes)
  unfolding on_message begin
  begin-Intact id name size t at = elim (begin_cases id name size) [
    | inl (e, failure) ↦ rw (failure) (v t (ground (arith, at, failure)))
    | inr (small, success) ↦
        let path = unique_path (exists f.disk) host.download_dir (sanitize_filename name) in
        rw (success) (record {
          stored = ground (arith, at, success, same_text_refl path);
          counted = ground (arith, at, success);
          bounded = ground (arith, at, success);
          limited = ground (arith, at, success, small);
          reported = ground (arith, at, success);
        })
  ]

  pub chunk-Intact :
      (payload : Bytes) → Intact (on_message host (data_chunk payload) f).1 (bytes ++ payload)
  unfolding on_message answer_chunk chunk write_chunk report abort
  chunk-Intact payload t at = elim (Option-cases f.state) [
    | inl idle ↦ absurd (ground (arith, idle, at))
    | inr (s, here) ↦
        let r = v s here in
        record {
          stored = ground (arith, at, here, r.stored, same_text_refl s.path);
          counted =
              ground
                (arith, at, here, r.counted, r.bounded, r.limited, length-append bytes payload);
          bounded = ground (arith, at, here);
          limited = ground (arith, at, here, r.limited);
          reported = ground (arith, at, here, r.reported);
        }
  ]

  end-Intact : (id : Text) → Intact (on_message host (end_upload id) f).1 bytes
  unfolding on_message end
  end-Intact id t at = ground (arith, at, v t)

  -- A message keeps the file of the active transfer equal to what was received for it.
  message-Intact :
      (msg : FilesIncoming)
      → let (replies, f') = on_message host msg f in Intact f' (bytes_after msg replies bytes)
  message-Intact (begin_upload id name size) = begin-Intact id name size
  message-Intact (end_upload id) = end-Intact id
  message-Intact (data_chunk payload) = chunk-Intact payload

  pub complete-Received :
      (id path : Text) (n : ℕ)
      → (on_message host (end_upload id) f).0 ≡ complete id path n ∷ []
      → ((on_message host (end_upload id) f).1.disk path ≡ some bytes) × (n ≡ length bytes)
  unfolding on_message end
  complete-Received id path n e = elim (Option-cases f.state) [
    | inl idle ↦ absurd (ground (arith, idle, e))
    | inr (t, here) ↦ ground (arith, here, e, (v t here).stored, (v t here).counted)
  ]

-- The messages of a channel in turn, and the bytes received for the transfer that is active last.
unfoldable pub serve : List (Host × FilesIncoming) → Files → Bytes → Files × Bytes
serve [] f bytes = (f, bytes)
serve ((host, msg) ∷ rest) f bytes =
    let (replies, f') = on_message host msg f in serve rest f' (bytes_after msg replies bytes)

serve-Intact :
    (msgs : List (Host × FilesIncoming)) (f : Files) (bytes : Bytes)
    → Intact f bytes
    → let (f', bytes') = serve msgs f bytes in Intact f' bytes'
unfolding serve
serve-Intact [] f bytes v = v
serve-Intact ((host, msg) ∷ rest) f bytes v =
    serve-Intact rest (on_message host msg f).1 (bytes_after msg (on_message host msg f).0 bytes)
      (message-Intact host f bytes v msg)

-- Whatever messages a channel has served and however the host's writes have failed, an upload that
-- is reported complete has left a file of exactly the bytes received for it since it was accepted.
pub serve_complete :
    (msgs : List (Host × FilesIncoming)) (disk : Disk) (host : Host) (id path : Text) (n : ℕ)
    → let (f, bytes) = serve msgs (record { state = none; disk = disk }) [] in
      let (replies, f') = on_message host (end_upload id) f in
      replies ≡ complete id path n ∷ [] → (f'.disk path ≡ some bytes) × (n ≡ length bytes)
serve_complete msgs disk host id path n e =
    let (f, bytes) = serve msgs (record { state = none; disk = disk }) [] in
    complete-Received host f bytes
      (serve-Intact msgs (record { state = none; disk = disk }) [] (λ t at. cc)) id path n e
