-- ===== src/Stream.antt =====
-- src/ws_collab/jsonl_store.py, `_StreamState`: one durable stream and its files. The sidecar state
-- file is `none` where it is missing or cannot be read, and archived segments are found by their
-- generation, which is the suffix of their path. File operations succeed.
pub mod Append
pub mod Read
pub mod Pages
pub mod Sources
pub mod Sound
pub mod Paging
pub mod Writing
pub mod Rotation
pub mod Appending
pub mod Tokens
pub mod Duplicates
pub mod Recover
use ws_collab.Prelude.{ℕ, Bool, Option, none, some, List, [], nat_eq, Text}
use ws_collab.Lines.{Bytes}
use ws_collab.Dict.{Dict}
use ws_collab.Json.{Json}

-- One entry of `segments`.
pub record Segment : Type 0 where
  pub gen : ℕ
  pub start_seq : ℕ
  pub end_seq : ℕ

-- One entry of `idempotency`.
pub record Seen : Type 0 where
  pub id : Json
  pub seq : Json
  pub offset : ℕ
  pub gen : ℕ

-- The payload of `_write_state`.
pub record Sidecar : Type 0 where
  pub gen : ℕ
  pub seq : ℕ
  pub active_start_seq : ℕ
  pub segments : List Segment

pub record Disk : Type 0 where
  pub active : Option Bytes
  pub archived : Dict ℕ Bytes
  pub sidecar : Option Sidecar

pub record Stream : Type 0 where
  pub name : Text
  pub rotate_max_bytes : ℕ
  pub retention_max_files : ℕ
  pub seq : ℕ
  pub gen : ℕ
  pub active_start_seq : ℕ
  pub segments : List Segment
  pub idempotency : Dict Text Seen
  pub disk : Disk

-- `handle.read(65536)`
abbrev pub chunk_size : ℕ
chunk_size = 65536

-- `active_path.stat().st_size`, 0 where there is no file.
unfoldable pub active_bytes : Stream → Bytes
active_bytes s = elim s.disk.active [ none ↦ [] | some bs ↦ bs ]

-- One entry of `_ordered_sources`, with the file behind its path.
pub record Source : Type 0 where
  pub gen : ℕ
  pub end_seq : ℕ
  pub is_active : Bool
  pub file : Option Bytes
