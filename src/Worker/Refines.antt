-- ===== src/Worker/Refines.antt =====
-- The worker of src/worker.rs behind the engine of src/server/tts.rs.
use mii_sound.Common.{◌≡◌, Bool, List, [], length, map}
use mii_sound.Proto.{Response, BatchItem}
use mii_sound.Proto.RoundTrip.{received_item}
use mii_sound.Worker.{Env, Libs, handle_batch_request}
use mii_sound.Worker.Batches.{OneEach}
use mii_sound.Worker.Order.{InOrder}
use mii_sound.Server.Engine.{PendingItem, RunningWorker}
use mii_sound.Server.Engine.Dispatch.{wire_item}
use mii_sound.Server.Engine.Serving.{Serves}

module _ (libs : Libs) (one : OneEach libs) (env : Env) (poisoned : Bool)
    (batch : List PendingItem) where
  -- The items as the worker reads them, and its responses.
  abbrev pub items_read : List BatchItem
  items_read = map received_item (map wire_item batch)

  abbrev pub responses : List Response
  responses = (handle_batch_request libs env poisoned items_read).0

  -- A worker that serves the batch with a response for each item, in the order of the items.
  pub record Answered (w : RunningWorker) : Type 0 where
    pub serves : Serves batch responses [] w
    pub one_each : length responses ≡ length batch
    pub in_order : InOrder libs items_read responses
