-- ===== src/Lease/Dynamodb/Refines/Steps.antt =====
-- internal/lease/dynamodb.go against internal/lease/memory.go: every call.
use opentelemetry_kinesis_st.Base.{Option, Str}
use opentelemetry_kinesis_st.Lease.Memory.{MemoryStore}
use opentelemetry_kinesis_st.Lease.Memory.Fencing.{
  Call, ensures, acquires, heartbeats, checkpoints, releases, deletes,
}
use opentelemetry_kinesis_st.Lease.Dynamodb.{Client}
use opentelemetry_kinesis_st.Lease.Dynamodb.Rows.{Item}
use opentelemetry_kinesis_st.Lease.Dynamodb.Service.{IsDynamodb}
use opentelemetry_kinesis_st.Lease.Dynamodb.Refines.{
  perform, in_memory, IsCall, Represents, Refines,
}
use opentelemetry_kinesis_st.Lease.Dynamodb.Refines.Calls.{
  heartbeat-Refines, checkpoint-Refines, release_call-Refines, acquire-Refines,
}
use opentelemetry_kinesis_st.Lease.Dynamodb.Refines.Lifetime.{ensure-Refines, delete-Refines}

-- On a table of DynamoDB as it is documented, whose rows stand for the leases of an in-memory
-- store, and with no other writer during the call: Ensure, Acquire, Heartbeat, Checkpoint, Release
-- and Delete return what the in-memory store returns, errors included, up to the order of a lease's
-- parents, and leave rows that stand for the in-memory store after the call; or they fail with an
-- error of the service or the context, and the rows stand for the store before or after the call.
-- Counters are int64s, and a heartbeat, checkpoint or release is by a lease with an owner.
pub perform-Refines :
    {W : Type 0} (c : Client W) (row : W → Str → Option Item)
    → IsDynamodb c row
    → (w : W) (m : MemoryStore) → Represents row w m
    → (call : Call) → IsCall call
    → Refines row m
        (in_memory call m).1
        (perform c call w).0
        (in_memory call m).0
        (perform c call w).1
perform-Refines c row db w m rep (ensures k ps) h = ensure-Refines c row db w m rep k ps
perform-Refines c row db w m rep (acquires k o n) h = acquire-Refines c row db w m rep k o n h
perform-Refines c row db w m rep (heartbeats l) h = heartbeat-Refines c row db w m rep l h
perform-Refines c row db w m rep (checkpoints l seq) h = checkpoint-Refines c row db w m rep l seq h
perform-Refines c row db w m rep (releases l) h = release_call-Refines c row db w m rep l h
perform-Refines c row db w m rep (deletes k n) h = delete-Refines c row db w m rep k n h
