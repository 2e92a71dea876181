-- ===== src/Tests/Side.antt =====
-- Runs of the bank mapper: a batch comes before the names of its banks, waits in the spill file, and is
-- mapped when they are there; and a restart over a spill file.
use tp_distribuidos_moneylau.Prelude.{
  ℕ, ◌≡◌, ◌+◌, refl, Bool, true, false, Option, none, some, List, [], ◌∷◌, nat_eq, list_eq, pair_eq,
  arith, count, get_or, contains, lookup, insert, erase, setdefault, add, All, Dict,
}
use tp_distribuidos_moneylau.Prelude.Text.{
  Text, text, int_of, signed, strip, lstrip, is_space, digits, is_digit, str_ℤ, decimal,
}
use tp_distribuidos_moneylau.Prelude.Int.{pos}
use tp_distribuidos_moneylau.Models.{is_cleanup_eof}
use tp_distribuidos_moneylau.Worker.Memory.{
  seen_clients, is_seen, open_seen, add_to_open, remember, snapshot_seen,
}
use tp_distribuidos_moneylau.Worker.SideInput.{is_ready, set_expected, track_batch}
use tp_distribuidos_moneylau.Worker.SideWorker.{
  SideHooks, compact, SideWorker, SideRecord, started, data_message, side_batch, side_eof,
  side_logged, side_eof_logged, main_logged,
}
use tp_distribuidos_moneylau.Worker.SideWorker.Takes.{ids_of, taken}
use tp_distribuidos_moneylau.Worker.SideWorker.Events.{
  SideEvent, arrives, side_arrives, draining, handle_events,
}
use tp_distribuidos_moneylau.Worker.SideWorker.Once.{
  KeepsClient, first_ids, serve, handle_events_once,
}
use tp_distribuidos_moneylau.Worker.SideWorker.Drained.{handle_events_drained}
use tp_distribuidos_moneylau.Worker.SideWorker.Recovery.{replay, recover, start, start_drained}
use tp_distribuidos_moneylau.Worker.SideWorker.Replay.{replay_restores}
use tp_distribuidos_moneylau.Workers.BankMax.{BankMaxPartial}
use tp_distribuidos_moneylau.Workers.BankMapper.{bank_mapper, names_delta, map_names, add_names}

abbrev mapper : SideHooks
mapper = bank_mapper ℕ (text "2")

abbrev client : Text
client = text "a"

abbrev maxima : List (BankMaxPartial ℕ)
maxima = record { from_bank = text "07"; from_account = text "x"; amount = 5 } ∷ []

abbrev events : List (SideEvent mapper)
events =
    arrives (text "m") client (data_message maxima)
    ∷ side_arrives (text "s") client
        (side_batch (record { bank_id = text "7"; name = text "B" } ∷ []))
    ∷ side_arrives (text "t") client (side_eof (record { message_count = pos 1 }))
    ∷ draining
    ∷ []

abbrev worker_of : Option (SideWorker mapper) → SideWorker mapper
worker_of none = started mapper none []
worker_of (some w) = w

abbrev worker : SideWorker mapper
worker = worker_of (handle_events mapper events (started mapper (some []) []))

handled : handle_events mapper events (started mapper (some []) []) ≡ some worker
unfolding handle_events lookup insert erase setdefault get_or contains add is_ready is_seen
    open_seen add_to_open names_delta int_of signed strip lstrip is_space digits is_digit
    is_cleanup_eof set_expected track_batch map_names
handled = refl

abbrev any_id : Text → Bool
any_id mid = true

ready : is_ready client worker.tracker ≡ true
unfolding handle_events lookup insert erase setdefault get_or contains add is_ready is_seen
    open_seen add_to_open names_delta int_of signed strip lstrip is_space digits is_digit
    is_cleanup_eof set_expected track_batch map_names
ready = refl

idle : contains client worker.due ≡ false
unfolding handle_events lookup insert erase setdefault get_or contains add is_ready is_seen
    open_seen add_to_open names_delta int_of signed strip lstrip is_space digits is_digit
    is_cleanup_eof set_expected track_batch map_names
idle = refl

handle_events_drained_example : get_or client [] worker.spill ≡ []
handle_events_drained_example =
    handle_events_drained mapper events (some []) client handled ready idle

replay_restores_example :
    (records : List (SideRecord mapper)) × (worker.store ≡ some records)
    × ((replay mapper records (started mapper none [])).tracker ≡ worker.tracker)
    × ((replay mapper records (started mapper none [])).tables ≡ worker.tables)
replay_restores_example = replay_restores mapper events (omega arith) handled

abbrev on_disk : List (SideRecord mapper)
on_disk =
    main_logged (text "m") client
    ∷ side_logged (text "s") client ((text "7", text "B") ∷ [])
    ∷ side_eof_logged (text "t") client (pos 1)
    ∷ []

abbrev spill_files : Dict Text (List (Text × List (BankMaxPartial ℕ)))
spill_files = (client, (text "m", maxima) ∷ []) ∷ []

abbrev again : SideWorker mapper
again = worker_of (start mapper (started mapper (some on_disk) spill_files))

began : start mapper (started mapper (some on_disk) spill_files) ≡ some again
unfolding start lookup insert erase setdefault get_or contains add is_ready remember int_of signed
    strip lstrip is_space digits is_digit set_expected track_batch map_names add_names compact
    seen_clients snapshot_seen str_ℤ decimal
began = refl

again_ready : is_ready client again.tracker ≡ true
unfolding start lookup insert erase setdefault get_or contains add is_ready remember int_of signed
    strip lstrip is_space digits is_digit set_expected track_batch map_names add_names compact
    seen_clients snapshot_seen str_ℤ decimal
again_ready = refl

again_known : contains client (seen_clients again.seen) ≡ true
unfolding start lookup insert erase setdefault get_or contains add is_ready remember int_of signed
    strip lstrip is_space digits is_digit set_expected track_batch map_names add_names compact
    seen_clients snapshot_seen str_ℤ decimal
again_known = refl

start_drained_example : get_or client [] again.spill ≡ []
start_drained_example =
    start_drained mapper on_disk spill_files client began again_ready again_known

abbrev more : List (SideEvent mapper)
more =
    arrives (text "m") client (data_message maxima)
    ∷ arrives (text "n") client (data_message maxima)
    ∷ []

abbrev resumed : SideWorker mapper
resumed = worker_of (serve mapper more (started mapper (some on_disk) spill_files))

served : serve mapper more (started mapper (some on_disk) spill_files) ≡ some resumed
unfolding serve start handle_events lookup insert erase setdefault get_or contains add is_ready
    is_seen open_seen add_to_open remember names_delta int_of signed strip lstrip is_space digits
    is_digit is_cleanup_eof set_expected track_batch map_names add_names compact seen_clients
    snapshot_seen str_ℤ decimal
served = refl

keeps : All (KeepsClient mapper client) more
unfolding is_cleanup_eof
keeps = (refl, (refl, tt))

handle_events_once_example :
    taken mapper any_id client resumed
    ≡ taken mapper any_id client (recover mapper (started mapper (some on_disk) spill_files))
      + count any_id (
          first_ids mapper client
            (ids_of client (recover mapper (started mapper (some on_disk) spill_files)).seen)
            more)
handle_events_once_example =
    handle_events_once mapper any_id client more on_disk spill_files keeps served
