-- ===== src/Tracker/Proxy.antt =====
-- svc/tracker_proxy.go and svc/proxy/proxy.go. `url.Parse`, the reverse proxy and what the storage
-- answers come in as arguments.
pub mod Offline
use eggdfs.Base.{Option, none, some, ◌++◌, Outcome, done, panic, ◌>>=◌, Result, ok, err}
use eggdfs.Base.Text.{Text, bytes}
use eggdfs.Base.Dict.{insert}
use eggdfs.Common.Const.{storage_offline}
use eggdfs.Group.{Group, get_storage}
use eggdfs.Tracker.{Tracker, get_group, put_group}

pub record TrackerProxy : Type 0 where
  pub schema : Text
  pub addr : Text
  pub target : Text
  pub group : Text

unfoldable pub separator : Text
separator = bytes "://"

-- `schema + "://" + addr`
unfoldable pub address_url : Text → Text → Text
address_url schema addr = schema ++ (separator ++ addr)

unfoldable pub new_tracker_proxy : Text → Text → Text → TrackerProxy
new_tracker_proxy schema addr group = record {
  schema = schema;
  addr = addr;
  target = address_url schema addr;
  group = group;
}

-- The headers of an answer that the tracker reads.
pub record Headers : Type 0 where
  pub upload_res : Text
  pub file_path : Text
  pub file_hash : Text

-- What `ServeHTTP` of the reverse proxy does: it relays an answer, it calls the error handler, or it panics
-- with `http.ErrAbortHandler`, where the body of an answer breaks off on its way to the client.
pub data Proxied : Type 0 where
  answered : Headers → Proxied
  unreachable : Text → Proxied
  aborted : Proxied

-- What the client was sent: the storage's answer, or the JSON of `AbortErrorHandler`.
pub data Relayed : Type 0 where
  relayed : Headers → Relayed
  bad_gateway : Text → Relayed

module _ {S : Type 0} where
  -- Both pointers are dereferenced without a test.
  unfoldable pub abort_error_handler : TrackerProxy → Tracker S → Outcome (Tracker S)
  abort_error_handler tp t = elim (get_group tp.group t) [
    | none ↦ panic
    | some g ↦ elim (get_storage tp.addr g) [
      | none ↦ panic
      | some s ↦ done (
          put_group
            (record g {
              storages = insert tp.addr (record s { status = storage_offline }) g.storages;
            })
            t)
    ]
  ]

  -- `parse` is `url.Parse`, as far as its error goes.
  unfoldable pub http_proxy :
      (Text → Option Text)
      → TrackerProxy
      → Proxied
      → Tracker S
      → Outcome (Result Text Relayed × Tracker S)
  unfolding abort_error_handler
  http_proxy parse tp p t = elim (parse tp.target) [
    | some e ↦ done (err e, t)
    | none ↦ elim p [
      | answered h ↦ done (ok (relayed h), t)
      | unreachable e ↦ do t' ← abort_error_handler tp t; done (ok (bad_gateway e), t')
      | aborted ↦ panic
    ]
  ]
