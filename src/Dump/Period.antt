-- ===== src/Dump/Period.antt =====
-- When a dump is due: `dump_update_valid` of
-- ngx_metric_module/src/ngx_http_vhost_traffic_status_dump.c.
use metrics_server_example.Base.{
  ℕ, ◌+◌, ◌-◌, ◌≡◌, ◌≤◌, ◌<◌, refl, ap, ◌∙◌, Bool, true, false, arith, ltb, if◌then◌else◌, inl, inr,
  Bool-cases,
}
use metrics_server_example.Base.Words.{u64_mod, sub64}
use metrics_server_example.Text.{Status, ok, error}
use metrics_server_example.RbTree.{Tree}
use metrics_server_example.Filter.Walk.{preorder}
use metrics_server_example.Dump.{
  Layout, File, Files, IsWorking, DumpConf, file_header, dump_execute, dump_handler, update_valid,
}
use metrics_server_example.Dump.Written.{all_bytes}
use metrics_server_example.Dump.Headers.{
  HeaderFits, file_header-named, dumped, dump_execute_lem, header_read-header,
}

update_valid-dumped :
    (layout : Layout) (os : Files) (working : IsWorking os) (c : DumpConf) (now later : ℕ)
    (t : Tree) (disk : File)
    → HeaderFits layout (file_header c now)
    → update_valid layout os c later (dumped layout os working c now t disk) ≡ (
        if ltb c.dump_period (sub64 later now)
        then (ok, dumped layout os working c now t disk)
        else (error, dumped layout os working c now t disk))
unfolding update_valid file_header
update_valid-dumped layout os working c now later t disk fits =
    let closed = dumped layout os working c now t disk in
    let f : File = record closed { is_open = true } in
    let read =
      header_read-header layout os working (file_header c now) f (all_bytes layout (preorder t))
        fits refl in
    rw
      (
        update_valid,
        working.open_read_lem closed,
        read,
        file_header-named c now,
        working.close_file_lem f,
      )
      refl

-- The handler at `later`, on the file of a dump made at `now`, while nginx is not exiting: the timer is
-- set again; the file stays as it is up to the period, and after that a new dump takes its place. This
-- is for calls on files that succeed, a header that the layout keeps, and times below 2^64 of which
-- `later` is not the earlier.
pub handler-execute :
    (layout : Layout) (os : Files) (c : DumpConf) (now later : ℕ) (t t' : Tree) (disk : File)
    → IsWorking os
    → HeaderFits layout (file_header c now)
    → now ≤ later
    → later < u64_mod
    → dump_handler layout os c false later t' (dump_execute layout os c now t disk).1 ≡ (
      true,
      if ltb (now + c.dump_period) later
          then (dump_execute layout os c later t' (dump_execute layout os c now t disk).1).1
          else (dump_execute layout os c now t disk).1,
    )
unfolding dump_handler
handler-execute layout os c now later t t' disk working fits order bound =
    let closed = dumped layout os working c now t disk in
    let go : Status × File → Bool × File = λ v. elim v.0 [
      | error ↦ (true, v.1)
      | ok ↦ (true, (dump_execute layout os c later t' v.1).1)
    ] in
    let diff : sub64 later now ≡ later - now = omega arith in
    let valid = update_valid-dumped layout os working c now later t disk fits in
    rw (dump_execute_lem layout os working c now t disk fits)
      (elim (Bool-cases (ltb (now + c.dump_period) later)) [
        | inl late ↦
            let due : ltb c.dump_period (sub64 later now) ≡ true = ground (arith, diff) in
            rw late
              (ap go (valid ∙ ap (λ (b : Bool). if b then (ok, closed) else (error, closed)) due))
        | inr early ↦
            let due : ltb c.dump_period (sub64 later now) ≡ false = ground (arith, diff) in
            rw early
              (ap go (valid ∙ ap (λ (b : Bool). if b then (ok, closed) else (error, closed)) due))
      ])
