-- ===== src/Wire/Batch/Inline.antt =====
-- What becomes of an inline payload: `main` of src/apps/batch-inference/service/akida_worker.py.
use Prim.Native.String.{String}
use text.Mathlib.Text.{◌==◌ as str_eq}
use mathlib.Core.List.{append_assoc}
use symphony_akida.Prelude.{
  ℕ, ◌≡◌, ◌≢◌, refl, ap, ap₂, ◌∙◌, inl, inr, Bool, true, false, [], ◌∷◌, ◌++◌, Option, some, arith,
  All, length, length-append, take-append, drop-append, Bool-cases,
}
use symphony_akida.Prelude.Outcome.{Outcome, return, raise}
use symphony_akida.Wire.Stream.{Bytes, Pipe, got, newline, read_line, read_exact_got}
use symphony_akida.Wire.Serve.{error, Turn, replies}
use symphony_akida.Wire.Exchange.{split_line-append}
use symphony_akida.Wire.Batch.{
  Chip, BatchRequest, BatchReply, infer_on, infer_payload, after_load, loaded_then, map_model,
  batch_request, batch_read, batch_turn,
}

module _ {C R : Type 0} (chip : Chip C R) (most : ℕ → ℕ) (shm : Option Bytes) (payload rest : Bytes)
    (closed : Bool) where
  -- The pipe behind the request's line, and behind its payload.
  abbrev pub ahead : Pipe
  ahead = record { bytes = payload ++ rest; closed = closed }

  abbrev pub behind : Pipe
  behind = record { bytes = rest; closed = closed }

  -- The worker in state `c` takes the first line of the payload for the next request.
  abbrev pub TakesLine : C → Type 0
  TakesLine c =
      (strip : Bytes → Bytes) (decode : Bytes → Option BatchRequest) (line more : Bytes)
      → payload ≡ line ++ newline ∷ more
      → All (λ b. b ≢ newline) line
      → batch_turn chip most shm strip decode c ahead
        ≡ batch_read chip most shm strip decode c (line ++ newline ∷ [])
            (record { bytes = more ++ rest; closed = closed })

  -- A turn by what the model needs: nothing, or a load, which returns or raises.
  abbrev pub Serves : C → Bool → C × Outcome String → Turn C (BatchReply R) → Type 0
  Serves c true loaded turn = turn ≡ infer_on chip most shm c payload behind
  Serves c false (c', return name) turn = turn ≡ infer_on chip most shm c' payload behind
  Serves c false (c', raise e) turn = (turn ≡ replies c' (error e) ahead) × TakesLine c'

  takes_line : (c : C) → TakesLine c
  unfolding batch_turn read_line
  takes_line c strip decode line more split one_line =
      let same : payload ++ rest ≡ line ++ newline ∷ (more ++ rest) =
        ap (λ (bytes : Bytes). bytes ++ rest) split ∙ append_assoc line (newline ∷ more) rest in
      rw (same, split_line-append line (more ++ rest) one_line, batch_turn, read_line) refl

  module _ (r : BatchRequest) (model : String) (going : r.shutdown ≡ false)
      (names : r.model ≡ some model) (named : str_eq model "" ≡ false) (inline : r.inline ≡ true)
      (sized : r.n ≡ some (length payload)) where
    reads_payload :
        (c : C) → after_load chip most shm c r r.n ahead ≡ infer_on chip most shm c payload behind
    unfolding after_load infer_payload
    reads_payload c =
        let reads =
          read_exact_got most ahead (length payload) (omega (arith, length-append payload rest))
          ∙ ap₂ got (take-append payload rest) (drop-append payload rest) in
        rw (sized, inline, infer_payload, reads) refl

    loaded-Serves :
        (c : C) (loaded : C × Outcome String)
        → Serves c false loaded (loaded_then chip most shm r ahead loaded.0 loaded.1)
    loaded-Serves c (c', return name) = reads_payload c'
    loaded-Serves c (c', raise e) = (refl, takes_line c')

    -- A request that names a model, does not shut the worker down, and sends a payload of the stated
    -- length inline has that payload read whole and inferred, and the pipe is left behind it, where
    -- the model is mapped already or its load returns. Where the load raises, the error is answered
    -- with the payload still in the pipe, and where the payload holds a line feed, the next turn takes
    -- its first line for a request.
    pub request-Serves :
        (c : C)
        → Serves c
            (chip.is_mapped c model)
            (chip.load c model)
            (batch_request chip most shm c (some r) ahead)
    unfolding batch_request map_model
    request-Serves c = elim (Bool-cases (chip.is_mapped c model)) [
      | inl mapped ↦ rw (going, names, named, mapped) (reads_payload c)
      | inr unmapped ↦ rw (going, names, named, unmapped) (loaded-Serves c (chip.load c model))
    ]
