-- ===== src/Agent/Files/Uploads.antt =====
-- An upload from its acceptance to its completion on a host whose disk works.
use roomler.Prelude.{
  append_assoc, ◌-◌, leb, sym, Bool-cases, ℕ, ◌+◌, ◌≤◌, ◌<◌, ◌≡◌, refl, true, false, none, some,
  List, [], ◌∷◌, ◌++◌, arith, Text, same_text_refl, length, length-append, inl, inr, ltb,
}
use mathlib.Core.List.{append-nil}
use roomler.Agent.Files.Names.{
  unique_path, unique_path_taken, sanitize_filename, join, suffixed, split_stem_ext,
}
use roomler.Agent.Files.Handler.{
  progress_bytes, saturating_add, answer_chunk, Files, Host, TransferState, Bytes, done, begin,
  chunk, end, on_message, begin_upload, end_upload, data_chunk, complete, exists, write_chunk,
  report, max_transfer_bytes,
}
use roomler.Agent.Files.Transfers.{Intact, Received, chunk-Intact, complete-Received}

-- A host on which nothing fails.
abbrev pub IsSound : Host → Type 0
IsSound host =
    (host.makes_folder ≡ true)
    × (host.makes_file ≡ true)
    × (host.write_fault ≡ none)
    × (host.flushes ≡ true)

-- The chunks of an upload, each answered in turn.
unfoldable pub send_chunks : Host → List Bytes → Files → Files
send_chunks host [] f = f
send_chunks host (payload ∷ rest) f =
    send_chunks host rest (on_message host (data_chunk payload) f).1

abbrev pub concat : List Bytes → Bytes
concat [] = []
concat (payload ∷ rest) = payload ++ concat rest

-- A transfer that has received the bytes and may still receive some more.
record Uploading (f : Files) (id path : Text) (expected : ℕ) (bytes : Bytes) : Type 0 where
  t : TransferState
  active : f.state ≡ some t
  same_id : t.id ≡ id
  same_path : t.path ≡ path
  same_size : t.expected ≡ expected
  received : Received t f.disk bytes

Uploading-Intact :
    {f : Files} {id path : Text} {expected : ℕ} {bytes : Bytes}
    → Uploading f id path expected bytes
    → Intact f bytes
Uploading-Intact u t at = ground (arith, at, u.active, u.received)

module _ (host : Host) (sound : IsSound host) where
  chunk_active :
      (f : Files) (id path : Text) (expected : ℕ) (bytes payload : Bytes)
      (u : Uploading f id path expected bytes)
      → length bytes + length payload ≤ expected
      → (on_message host (data_chunk payload) f).1.state
        ≡ some (report (record u.t { received = u.t.received + length payload })).1
  unfolding on_message answer_chunk chunk write_chunk report
  chunk_active f id path expected bytes payload u fits =
      let t = u.t in
      let whole : saturating_add t.received (length payload) ≡ t.received + length payload =
        ground (arith, u.received.counted, u.received.limited, u.same_size, fits) in
      let room : ltb t.expected (t.received + length payload) ≡ false =
        ground (arith, u.received.counted, u.same_size, fits) in
      elim (Bool-cases (leb progress_bytes (t.received + length payload - t.last_progress))) [
        | inl reports ↦ rw (u.active, whole, room, sound.2, reports) refl
        | inr silent ↦ rw (u.active, whole, room, sound.2, silent) refl
      ]

  chunk-Uploading :
      (f : Files) (id path : Text) (expected : ℕ) (bytes payload : Bytes)
      → Uploading f id path expected bytes
      → length bytes + length payload ≤ expected
      → Uploading (on_message host (data_chunk payload) f).1 id path expected (bytes ++ payload)
  chunk-Uploading f id path expected bytes payload u fits =
      let t = u.t in
      let t' = (report (record t { received = t.received + length payload })).1 in
      let active' = chunk_active f id path expected bytes payload u fits in
      record {
        t = t';
        active = active';
        same_id = unfold report in ground (arith, u.same_id);
        same_path = unfold report in ground (arith, u.same_path);
        same_size = unfold report in ground (arith, u.same_size);
        received = chunk-Intact host f bytes (Uploading-Intact u) payload t' active';
      }

  send_chunks-Uploading :
      (payloads : List Bytes) (f : Files) (id path : Text) (expected : ℕ) (bytes : Bytes)
      → Uploading f id path expected bytes
      → length bytes + length (concat payloads) ≤ expected
      → Uploading (send_chunks host payloads f) id path expected (bytes ++ concat payloads)
  unfolding send_chunks
  send_chunks-Uploading [] f id path expected bytes u fits = rw (append-nil bytes) u
  send_chunks-Uploading (payload ∷ rest) f id path expected bytes u fits =
      rw (sym (append_assoc bytes payload (concat rest))) (
        send_chunks-Uploading rest (on_message host (data_chunk payload) f).1 id path expected
          (bytes ++ payload)
          (chunk-Uploading f id path expected bytes payload u
            (omega (arith, fits, length-append payload (concat rest))))
          (omega (arith, fits, length-append payload (concat rest), length-append bytes payload)))

  begin-Uploading :
      (f : Files) (id name : Text) (size : ℕ)
      → size ≤ max_transfer_bytes
      → Uploading
          (on_message host (begin_upload id name size) f).1
          id
          (unique_path (exists f.disk) host.download_dir (sanitize_filename name))
          size
          []
  unfolding on_message begin
  begin-Uploading f id name size small =
      let path = unique_path (exists f.disk) host.download_dir (sanitize_filename name) in
      let t : TransferState = record {
        id = id;
        path = path;
        expected = size;
        received = 0;
        last_progress = 0;
      } in
      let active : (begin host id name size f).1.state ≡ some t =
        ground (arith, small, sound.0, sound.1) in
      record {
        t = t;
        active = active;
        same_id = refl;
        same_path = refl;
        same_size = refl;
        received = record {
          stored = ground (arith, small, sound.0, sound.1, same_text_refl path);
          counted = refl;
          bounded = omega arith;
          limited = small;
          reported = omega arith;
        };
      }

  end_replies :
      (f : Files) (id path : Text) (size : ℕ) (bytes : Bytes)
      → Uploading f id path size bytes
      → length bytes ≡ size
      → (on_message host (end_upload id) f).0 ≡ complete id path size ∷ []
  unfolding on_message end
  end_replies f id path size bytes u whole = ground (
    arith,
    u.active,
    u.same_id,
    u.same_path,
    u.same_size,
    u.received.counted,
    whole,
    same_text_refl id,
    sound.3,
  )

  -- On a host on which nothing fails, an upload of at most 2 GiB whose chunks have the announced
  -- length together is reported complete at the path that was chosen, and the file there holds the
  -- chunks one after the other.
  pub send_chunks_complete :
      (f : Files) (id name : Text) (payloads : List Bytes)
      → length (concat payloads) ≤ max_transfer_bytes
      → let size = length (concat payloads) in
        let path = unique_path (exists f.disk) host.download_dir (sanitize_filename name) in
        let sent = send_chunks host payloads (on_message host (begin_upload id name size) f).1 in
        let (replies, after) = on_message host (end_upload id) sent in
        (replies ≡ complete id path size ∷ []) × (after.disk path ≡ some (concat payloads))
  send_chunks_complete f id name payloads small =
      let size = length (concat payloads) in
      let path = unique_path (exists f.disk) host.download_dir (sanitize_filename name) in
      let accepted = (on_message host (begin_upload id name size) f).1 in
      let u =
        send_chunks-Uploading payloads accepted id path size []
          (begin-Uploading f id name size small) (omega arith) in
      let replied =
        end_replies (send_chunks host payloads accepted) id path size (concat payloads) u
          (omega arith) in
      (
        replied,
        (complete-Received host (send_chunks host payloads accepted) (concat payloads)
            (Uploading-Intact u) id path size replied).0,
      )

-- An upload never takes the path of a file that exists, unless all of the numbered forms of its
-- name from 2 to 999 are taken.
begin_free :
    (host : Host) (id name path : Text) (size : ℕ) (f : Files)
    → (begin host id name size f).0 ≡ done path
    → exists f.disk path ≡ true
    → (k : ℕ) → 2 ≤ k
    → k < 1000
    → let safe = sanitize_filename name in
      exists f.disk (join host.download_dir (suffixed (split_stem_ext safe) k)) ≡ true
unfolding begin
begin_free host id name path size f e taken k low high =
    (unique_path_taken (exists f.disk) host.download_dir (sanitize_filename name)
        (ground (arith, e, taken))).1
      k low high
