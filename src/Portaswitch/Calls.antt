-- ===== src/Portaswitch/Calls.antt =====
-- app/bss/adapters/portaswitch/adapter.py and serializer.py: a page of the call history. The range,
-- the release of the switch, the status of a call and the recording ids are modules of their own.
-- The rows of the switch are a parameter.
mod Listed
mod Tests
use porta_phone_adapter.Base.{
  ℕ, Bool, true, false, ◌&&◌, Option, none, some, List, [], ◌∷◌, leb, if◌then◌else◌,
}
use porta_phone_adapter.Base.Eq.{Text}
use porta_phone_adapter.Base.Result.{Result, ok, err}
use porta_phone_adapter.CallHistory.{Datetime, call_history_range}
use porta_phone_adapter.CallStatus.{
  Cdr, Direction, ConnectStatus, parse_cdr_direction, parse_call_status, call_recording_exist,
}
use porta_phone_adapter.Codec.{Codec}
use porta_phone_adapter.RecordingId.{compose_recording_id}
use porta_phone_adapter.Release.{VersionCache, recordings_by_cr_download_ids}
use porta_phone_adapter.Portaswitch.{Fault, Failure, token_rejected}
use porta_phone_adapter.Portaswitch.Recordings.{caught, access_token_expired}

-- An xDR row; times are seconds, a missing `h323_conf_id` is the empty text.
pub record XdrRow : Type 0 where
  pub cdr : Cdr
  pub call_id : Option Text
  pub caller : Text
  pub callee : Text
  pub connect_time : ℕ
  pub disconnect_time : ℕ
  pub disconnect_reason : Text
  pub charged_quantity : ℕ
  pub i_xdr : Text
  pub conf_id : Text

pub record CdrInfo : Type 0 where
  pub call_id : Option Text
  pub caller : Text
  pub callee : Text
  pub connect_time : ℕ
  pub direction : Direction
  pub disconnect_reason : Text
  pub disconnect_time : ℕ
  pub duration : ℕ
  pub recording_id : Option Text
  pub status : ConnectStatus

-- `get_cdr_info`
unfoldable pub get_cdr_info : Codec → Bool → XdrRow → CdrInfo
get_cdr_info c by_cr_download_ids row = record {
  call_id = row.call_id;
  caller = row.caller;
  callee = row.callee;
  connect_time = row.connect_time;
  direction = parse_cdr_direction row.cdr;
  disconnect_reason = row.disconnect_reason;
  disconnect_time = row.disconnect_time;
  duration = row.charged_quantity;
  recording_id =
      if call_recording_exist by_cr_download_ids row.cdr
      then some (compose_recording_id c row.i_xdr row.conf_id)
      else none;
  status = parse_call_status row.cdr;
}

abbrev pub get_cdr_infos : Codec → Bool → List XdrRow → List CdrInfo
get_cdr_infos c by_cr_download_ids [] = []
get_cdr_infos c by_cr_download_ids (row ∷ rows) =
    get_cdr_info c by_cr_download_ids row ∷ get_cdr_infos c by_cr_download_ids rows

-- A request for a page: the page and its size, and the bounds that the client gives.
pub record Page : Type 0 where
  pub page : ℕ
  pub items_per_page : ℕ
  pub time_from : Option Datetime
  pub time_to : Option Datetime
  pub time_floor : Option Datetime

-- `get_xdr_list` with a session: the page, its size, the range, and whether the rows carry their
-- `cr_download_ids`. Its answer is the rows and their total.
abbrev pub XdrList : Type 0
XdrList = ℕ → ℕ → ℕ → ℕ → Bool → Result Failure (List XdrRow × ℕ)

-- What the adapter is given: CALL_HISTORY_DEFAULT_WINDOW_HOURS, the first release with
-- `cr_download_ids`, the naive UTC time, the monotonic one, and what `get_version` would answer.
pub record Now : Type 0 where
  pub window_hours : ℕ
  pub since : List ℕ
  pub utc : ℕ
  pub monotonic : ℕ
  pub version : Option Text

abbrev pub history_fault : Fault → Option Failure
history_fault token_rejected = some access_token_expired
history_fault _ = none

abbrev pub is_given : Option Datetime → Bool
is_given none = false
is_given (some t) = true

abbrev pub calls_of :
    Codec → Bool → Result Failure (List XdrRow × ℕ) → Result Failure (List CdrInfo × ℕ)
calls_of c by_cr_download_ids (err f) = err f
calls_of c by_cr_download_ids (ok (rows, total)) =
    ok (get_cdr_infos c by_cr_download_ids rows, total)

abbrev pub read_calls :
    Codec
    → XdrList
    → Page
    → ℕ
    → ℕ
    → Bool × VersionCache
    → Result Failure (List CdrInfo × ℕ) × VersionCache
read_calls c xdrs request from to (by_cr_download_ids, cache) = (
  caught history_fault (
      calls_of c by_cr_download_ids
        (xdrs request.page request.items_per_page from to by_cr_download_ids)),
  cache,
)

-- `retrieve_calls`
unfoldable pub retrieve_calls :
    Codec → XdrList → Now → Page → VersionCache → Result Failure (List CdrInfo × ℕ) × VersionCache
retrieve_calls c xdrs now request cache =
    let range =
      call_history_range now.utc now.window_hours request.time_from request.time_to
        request.time_floor in
    if is_given request.time_floor && leb (range.1) (range.0)
    then (ok ([], 0), cache)
    else read_calls c xdrs request (range.0) (range.1)
        (recordings_by_cr_download_ids now.since now.monotonic now.version cache)
