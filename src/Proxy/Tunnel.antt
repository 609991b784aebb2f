-- ===== src/Proxy/Tunnel.antt =====
-- The two loops of the upgrade task in `handle_upgrade` of src/main.rs: one copies from the client to
-- the daemon and the other back, until there is nothing more to read, an error, or an hour of silence.
use docker_proxy.Common.{
  ◌≡◌, refl, ◌⊎◌, inl, inr, sym, ap, ◌∙◌, Bool, true, false, if◌then◌else◌, List, [], ◌∷◌, ◌++◌,
  Str, is_empty, All,
}
use mathlib.Core.List.{append_assoc, append-nil}

-- What `timeout(.., read(..))` gives; an empty read is the end.
pub data Read : Type 0 where
  bytes : Str → Read
  read_failed : Read
  idle : Read

-- One round of a loop: what is read, and whether `write_all` of it succeeds.
pub record Round : Type 0 where
  pub reads : Read
  pub writes : Bool

-- What was written so far by whole writes, and whether the loop has ended and shut the other side.
pub record Copied : Type 0 where
  pub written : Str
  pub shut : Bool

abbrev pub stopped : Str → Copied
stopped out = record { written = out; shut = true }

-- The loop over the rounds there have been.
unfoldable pub copy : Str → List Round → Copied
copy out [] = record { written = out; shut = false }
copy out (r ∷ rounds) = elim r.reads [
  | read_failed ↦ stopped out
  | idle ↦ stopped out
  | bytes s ↦
      let rest = copy (out ++ s) rounds in
      if is_empty s then stopped out else if r.writes then rest else stopped out
]

-- Both directions, each with its own rounds; the connection to the daemon is aborted when both have
-- ended.
pub record Tunnel : Type 0 where
  pub to_daemon : Copied
  pub to_client : Copied

unfoldable pub run_tunnel : List Round → List Round → Tunnel
unfolding copy
run_tunnel c2d d2c = record { to_daemon = copy [] c2d; to_client = copy [] d2c }

abbrev pub chunk : Str → Round
chunk s = record { reads = bytes s; writes = true }

abbrev pub joined : List Str → Str
joined [] = []
joined (s ∷ chunks) = s ++ joined chunks

abbrev pub chunks_of : List Str → List Round
chunks_of [] = []
chunks_of (s ∷ chunks) = chunk s ∷ chunks_of chunks

copy_from :
    (out : Str) (chunks : List Str) (more : List Round)
    → All (λ s. is_empty s ≡ false) chunks
    → copy out (chunks_of chunks ++ more) ≡ copy (out ++ joined chunks) more
unfolding copy
copy_from out [] more h = ap (λ o. copy o more) (sym (append-nil out))
copy_from out (s ∷ chunks) more (filled, h) = rw filled (
    copy_from (out ++ s) chunks more h ∙ ap (λ o. copy o more) (append_assoc out s (joined chunks)))

-- A round that ends the loop: nothing more to read, a failed read, an hour of silence, or a write that
-- fails.
abbrev pub Stops : Round → Type 0
Stops r = (r.reads ≡ bytes []) ⊎ ((r.reads ≡ read_failed) ⊎ ((r.reads ≡ idle) ⊎ (r.writes ≡ false)))

copy_unwritable :
    (out : Str) (reads : Read) (later : List Round)
    → copy out (record { reads = reads; writes = false } ∷ later) ≡ stopped out
unfolding copy
copy_unwritable out read_failed later = refl
copy_unwritable out idle later = refl
copy_unwritable out (bytes []) later = refl
copy_unwritable out (bytes (c ∷ s)) later = refl

copy-Stops :
    (out : Str) (r : Round) (later : List Round) → Stops r → copy out (r ∷ later) ≡ stopped out
unfolding copy
copy-Stops out r later (inl e) = rw (e, copy) refl
copy-Stops out r later (inr (inl e)) = rw (e, copy) refl
copy-Stops out r later (inr (inr (inl e))) = rw (e, copy) refl
copy-Stops out r later (inr (inr (inr e))) =
    ap (λ w. copy out (record { reads = r.reads; writes = w } ∷ later)) e
    ∙ copy_unwritable out r.reads later

-- Each direction passes on what it reads, in its order and nothing else, while there is something
-- and it can be written. The end, a failed read, an hour of silence or a failed write ends the
-- direction and shuts its other side, whatever would have come.
pub run_tunnel_lem :
    (sent answered : List Str) (last final : Round) (later after : List Round)
    → All (λ s. is_empty s ≡ false) sent
    → All (λ s. is_empty s ≡ false) answered
    → Stops last
    → Stops final
    → run_tunnel (chunks_of sent ++ last ∷ later) (chunks_of answered ++ final ∷ after)
      ≡ record { to_daemon = stopped (joined sent); to_client = stopped (joined answered) }
unfolding run_tunnel
run_tunnel_lem sent answered last final later after h k ends closes =
    ap (λ c. record { to_daemon = c; to_client = copy [] (chunks_of answered ++ final ∷ after) })
      (copy_from [] sent _ h ∙ copy-Stops _ last later ends)
    ∙ ap (λ c. record { to_daemon = stopped (joined sent); to_client = c })
        (copy_from [] answered _ k ∙ copy-Stops _ final after closes)
