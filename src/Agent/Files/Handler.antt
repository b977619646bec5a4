-- ===== src/Agent/Files/Handler.antt =====
-- agents/roomler-agent/src/files.rs (FilesHandler), and handle_files_control and handle_files_chunk
-- of peer.rs: one transfer at a time, and the replies to each message of the channel. A byte is a
-- number; the disk maps a path to the bytes of its file; an open file is known by its path.
use roomler.Prelude.{
  ◌&&◌, ℕ, suc, zero, ◌+◌, ◌-◌, Bool, Option, none, some, List, [], ◌∷◌, ◌++◌, leb, ltb,
  if◌then◌else◌, Text, same_text, is_some, length,
}
use roomler.Agent.Files.Names.{sanitize_filename, unique_path}

abbrev pub Bytes : Type 0
Bytes = List ℕ

abbrev pub Disk : Type 0
Disk = Text → Option Bytes

abbrev pub write : Text → Bytes → Disk → Disk
write path bytes disk p = if same_text path p then some bytes else disk p

abbrev pub max_transfer_bytes : ℕ
max_transfer_bytes = 2147483648

abbrev pub progress_bytes : ℕ
progress_bytes = 262144

-- `u64::MAX`.
abbrev pub max_u64 : ℕ
max_u64 = 18446744073709551615

abbrev pub saturating_add : ℕ → ℕ → ℕ
saturating_add a b = if leb (a + b) max_u64 then a + b else max_u64

pub data FilesError : Type 0 where
  too_large : ℕ → FilesError
  no_folder no_file : FilesError
  no_active_transfer write_failed flush_failed no_transfer_to_end : FilesError
  too_many short_transfer : (received expected : ℕ) → FilesError
  wrong_transfer : (id active : Text) → FilesError

pub data Outcome (A : Type 0) : Type 0 where
  done : A → Outcome A
  failed : FilesError → Outcome A

pub record TransferState : Type 0 where
  pub id : Text
  pub path : Text
  pub expected : ℕ
  pub received : ℕ
  pub last_progress : ℕ

pub record ChunkProgress : Type 0 where
  pub id : Text
  pub bytes : ℕ

-- The handler of one channel, and the disk of the host.
pub record Files : Type 0 where
  pub state : Option TransferState
  pub disk : Disk

-- What the operating system answers: the folder for downloads, whether it and a file can be
-- created, how much of a write is done when it fails, and whether a flush succeeds.
pub record Host : Type 0 where
  pub download_dir : Text
  pub makes_folder : Bool
  pub makes_file : Bool
  pub write_fault : Option ℕ
  pub flushes : Bool

abbrev pub exists : Disk → Text → Bool
exists disk path = is_some (disk path)

abbrev pub take {ℓ} : {A : Type ℓ} → ℕ → List A → List A
take zero xs = []
take (suc n) [] = []
take (suc n) (x ∷ xs) = x ∷ take n xs

abbrev pub content : Option Bytes → Bytes
content none = []
content (some bytes) = bytes

-- The progress report, and the transfer after it.
unfoldable pub report : TransferState → Option ChunkProgress × TransferState
report t =
    if leb progress_bytes (t.received - t.last_progress)
    then (some record { id = t.id; bytes = t.received }, record t { last_progress = t.received })
    else (none, t)

module _ (host : Host) where
  unfoldable pub begin : Text → Text → ℕ → Files → Outcome Text × Files
  begin id name expected f =
      if ltb max_transfer_bytes expected
      then (failed (too_large expected), f)
      else let path = unique_path (exists f.disk) host.download_dir (sanitize_filename name) in
        if host.makes_folder
        then if host.makes_file
          then (
            done path,
            record {
              state = some record {
                id = id;
                path = path;
                expected = expected;
                received = 0;
                last_progress = 0;
              };
              disk = write path [] f.disk;
            },
          )
          else (failed no_file, f)
        else (failed no_folder, f)

  abbrev pub appended : Option ℕ → Bytes → Bytes
  appended none payload = payload
  appended (some n) payload = take n payload

  -- The write to the file, once the bytes are counted.
  unfoldable pub write_chunk : TransferState → Bytes → Disk → Outcome (Option ChunkProgress) × Files
  unfolding report
  write_chunk t payload disk =
      let disk' = write t.path (content (disk t.path) ++ appended host.write_fault payload) disk in
      if is_some host.write_fault
      then (failed write_failed, record { state = some t; disk = disk' })
      else let (progress, t') = report t in
        (done progress, record { state = some t'; disk = disk' })

  unfoldable pub chunk : Bytes → Files → Outcome (Option ChunkProgress) × Files
  unfolding write_chunk
  chunk payload f = elim f.state [
    | none ↦ (failed no_active_transfer, f)
    | some t ↦
        let t' = record t { received = saturating_add t.received (length payload) } in
        if ltb t.expected t'.received
        then (failed (too_many t'.received t.expected), record f { state = some t' })
        else write_chunk t' payload f.disk
  ]

  unfoldable pub end : Text → Files → Outcome (Text × ℕ) × Files
  end id f = elim f.state [
    | none ↦ (failed no_transfer_to_end, f)
    | some t ↦
        if same_text t.id id
        then if host.flushes
          then if leb t.received t.expected && leb t.expected t.received
            then (done (t.path, t.received), record f { state = none })
            else (failed (short_transfer t.received t.expected), record f { state = none })
          else (failed flush_failed, record f { state = none })
        else (failed (wrong_transfer id t.id), f)
  ]

unfoldable pub abort : Files → Files
abort f = record f { state = none }

pub data FilesIncoming : Type 0 where
  begin_upload : (id name : Text) (size : ℕ) → FilesIncoming
  end_upload : (id : Text) → FilesIncoming
  data_chunk : Bytes → FilesIncoming

-- The text of an error is formatted from it.
pub data FilesOutgoing : Type 0 where
  accepted : (id path : Text) → FilesOutgoing
  progress : (id : Text) (bytes : ℕ) → FilesOutgoing
  complete : (id path : Text) (bytes : ℕ) → FilesOutgoing
  error : (id : Text) → FilesError → FilesOutgoing

abbrev pub answer_begin : Text → Outcome Text → List FilesOutgoing
answer_begin id (done path) = accepted id path ∷ []
answer_begin id (failed e) = error id e ∷ []

abbrev pub answer_end : Text → Outcome (Text × ℕ) → List FilesOutgoing
answer_end id (done (path, bytes)) = complete id path bytes ∷ []
answer_end id (failed e) = error id e ∷ []

-- A chunk that fails ends the transfer.
unfoldable pub answer_chunk : Outcome (Option ChunkProgress) → Files → List FilesOutgoing × Files
unfolding abort
answer_chunk (done none) f = ([], f)
answer_chunk (done (some p)) f = (progress p.id p.bytes ∷ [], f)
answer_chunk (failed e) f = (error [] e ∷ [], abort f)

module _ (host : Host) where
  unfoldable pub on_message : FilesIncoming → Files → List FilesOutgoing × Files
  unfolding begin chunk end answer_chunk
  on_message (begin_upload id name size) f =
      let (r, f') = begin host id name size f in (answer_begin id r, f')
  on_message (end_upload id) f = let (r, f') = end host id f in (answer_end id r, f')
  on_message (data_chunk payload) f = let (r, f') = chunk host payload f in answer_chunk r f'
