-- ===== src/Stages/Containers.antt =====
-- The three containers' task handlers: `on_invoke` of SegmentServiceContainer.py,
-- InferenceServiceContainer.py and StitchServiceContainer.py. What `Py312Worker.request` comes to on
-- a request is a parameter: a reply of the worker, or an exception where the worker died.
use Prim.Native.String.{String}
use text.Mathlib.Text.{◌==◌ as str_eq}
use symphony_akida.Prelude.{ℕ, Option, none, some, length, if◌then◌else◌}
use symphony_akida.Prelude.Outcome.{Outcome, return, raise, Exception}
use symphony_akida.Wire.Stream.{Bytes}
use symphony_akida.Wire.Serve.{Reply, answer, error}
use symphony_akida.Stages.Segment.{SegRequest, SegReply}
use symphony_akida.Stages.Infer.{InfRequest, InfReply}
use symphony_akida.Stages.Stitch.{StitchRequest, StitchReply}

-- `PipeMessage`: the keys of the header that the handlers read, and the payload.
pub record PipeMessage (F : Type 0) : Type 0 where
  pub image_id : Option String
  pub model : Option String
  pub tile : Option ℕ
  pub post_thresh : Option F
  pub max_boxes : Option ℕ
  pub payload : Bytes

-- The object that is sent back: the image id, the tile where it has one, and the worker's reply, or
-- the exception that the handler caught.
pub data Answered (R : Type 0) : Type 0 where
  replied : Reply R → Answered R
  failed : Exception → Answered R

pub record TaskOutput (R : Type 0) : Type 0 where
  pub image_id : String
  pub tile : Option ℕ
  pub n_boxes : Option ℕ
  pub answered : Answered R

abbrev pub text_or : Option String → String → String
text_or none other = other
text_or (some text) other = text

-- `str(in_msg.header.get("image_id", ""))`
abbrev pub image_id_of : {F : Type 0} → PipeMessage F → String
image_id_of message = text_or message.image_id ""

abbrev pub number_or : Option ℕ → ℕ → ℕ
number_or none other = other
number_or (some n) other = n

abbrev pub answered_by : {R : Type 0} → Outcome (Reply R) → Answered R
answered_by (return reply) = replied reply
answered_by (raise e) = failed e

-- The tile is set where the worker's reply does not name it.
abbrev pub tile_of : ℕ → Outcome (Reply InfReply) → ℕ
tile_of tile (return (answer r)) = r.tile
tile_of tile (return (error e)) = tile
tile_of tile (raise e) = tile

-- `in_msg.header.get("model") or DEFAULT_MODEL`
abbrev pub model_or : Option String → String → String
model_or none other = other
model_or (some model) other = if str_eq model "" then other else model

module _ {F : Type 0} where
  unfoldable pub segment_invoke :
      (SegRequest → Option Bytes → Outcome (Reply SegReply)) → PipeMessage F → TaskOutput SegReply
  segment_invoke request message =
      let image_id = image_id_of message in
      record {
        image_id = image_id;
        tile = none;
        n_boxes = none;
        answered = answered_by (
            request (record { image_id = image_id; model = message.model }) (some message.payload));
      }

  unfoldable pub infer_invoke :
      (InfRequest → Outcome (Reply InfReply)) → PipeMessage F → TaskOutput InfReply
  infer_invoke request message =
      let image_id = image_id_of message in
      let tile = number_or message.tile 0 in
      let out = request (record { image_id = image_id; tile = tile; model = message.model }) in
      record {
        image_id = image_id;
        tile = some (tile_of tile out);
        n_boxes = none;
        answered = answered_by out;
      }

  -- `reply["n_boxes"] = len(reply.get("boxes", []))`
  abbrev pub boxes_of : Outcome (Reply (StitchReply F)) → Option ℕ
  boxes_of (return (answer r)) = some (length r.boxes)
  boxes_of (return (error e)) = some 0
  boxes_of (raise e) = none

  unfoldable pub stitch_invoke :
      String
      → (StitchRequest F → Outcome (Reply (StitchReply F)))
      → PipeMessage F
      → TaskOutput (StitchReply F)
  stitch_invoke default_model request message =
      let image_id = image_id_of message in
      let out = request (record {
        image_id = image_id;
        model = model_or message.model default_model;
        post_thresh = message.post_thresh;
        max_boxes = message.max_boxes;
      }) in
      record {
        image_id = image_id;
        tile = none;
        n_boxes = boxes_of out;
        answered = answered_by out;
      }
