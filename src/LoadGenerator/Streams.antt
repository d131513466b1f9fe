-- ===== src/LoadGenerator/Streams.antt =====
-- `connectAndReadSSE`, `runSSELoop` and the counts of open streams and of running users in cmd/load-generator/main.go.
-- What comes of a connection is given; the text that it carries is thrown away.
pub mod Balanced
use todo_1m.Prelude.{
  ℕ, zero, suc, ◌+◌, ◌-◌, ◌%◌, ◌^◌, String, Bool, true, false, Option, none, some, eqb,
  if◌then◌else◌, itoa,
}
use todo_1m.LoadGenerator.{Runner, add_one, count_success, count_error}

-- What the users share: `activeVUs` and `activeSSE` as the bits of an atomic.Int64.
pub record Meters : Type 0 where
  pub runner : Runner
  pub active_vus : ℕ
  pub active_sse : ℕ

-- `Add(-1)`
abbrev pub take_one : ℕ → ℕ
take_one n = (n + (2 ^ 64 - 1)) % 2 ^ 64

-- What comes of `sseClient.Do`.
pub data Connection : Type 0 where
  not_made : Connection
  lost : Connection
  answered : ℕ → Connection

-- How the scanner stops: the context is done, at the end of the body, or by an error, with the context then done or not.
pub data Scanned : Type 0 where
  interrupted : Scanned
  ended : Scanned
  broken : Bool → Scanned

pub data SseError : Type 0 where
  request_error : SseError
  unexpected_status : ℕ → SseError
  canceled : SseError
  scan_error : SseError

abbrev pub scan_result : Scanned → Option SseError
scan_result interrupted = none
scan_result ended = none
scan_result (broken done) = some (if done then canceled else scan_error)

-- Up to the scanner: `none` where the stream is open and counted.
unfoldable pub open_stream : Connection → Meters → Option SseError × Meters
open_stream not_made m = (some request_error, m)
open_stream lost m =
    (some request_error, record m { runner = count_error "events_stream_open" "GET" "0" m.runner })
open_stream (answered status) m =
    if eqb status 200
    then (
      none,
      record m {
        runner = count_success "events_stream_open" "GET" (itoa status) m.runner;
        active_sse = add_one m.active_sse;
      },
    )
    else (
      some (unexpected_status status),
      record m { runner = count_error "events_stream_open" "GET" (itoa status) m.runner },
    )

-- The deferred call.
unfoldable pub close_stream : Meters → Meters
close_stream m = record m { active_sse = take_one m.active_sse }

abbrev pub read_stream : Scanned → Option SseError × Meters → Option SseError × Meters
read_stream scanned (some e, m) = (some e, m)
read_stream scanned (none, m) = (scan_result scanned, close_stream m)

-- `connectAndReadSSE`
unfoldable pub connect_and_read_sse : Connection → Scanned → Meters → Option SseError × Meters
unfolding open_stream close_stream
connect_and_read_sse c scanned m = read_stream scanned (open_stream c m)

-- A turn of `runSSELoop`: whether the context is done before it, the connection, and whether the context is done before
-- the pause is over.
pub record SseTurn : Type 0 where
  pub done_before : Bool
  pub connection : Connection
  pub scanned : Scanned
  pub done_after : Bool

-- `runSSELoop`; `none` where the fuel is spent.
unfoldable pub run_sse_loop : (ℕ → SseTurn) → ℕ → ℕ → Meters → Option Meters
unfolding connect_and_read_sse
run_sse_loop turns zero n m = none
run_sse_loop turns (suc fuel) n m =
    let t = turns n in
    let m' = (connect_and_read_sse t.connection t.scanned m).1 in
    let rest = run_sse_loop turns fuel (suc n) m' in
    if t.done_before then some m else if t.done_after then some m' else rest

-- The deferred calls of `runUser` and what they undo.
unfoldable pub start_user : Meters → Meters
start_user m = record m { active_vus = add_one m.active_vus }

unfoldable pub stop_user : Meters → Meters
stop_user m = record m { active_vus = take_one m.active_vus }
