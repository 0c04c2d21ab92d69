-- ===== src/Session/Reason.antt =====
-- The first reason for the end of a session stays.
use yunova.Base.{◌≡◌, true, false, none, some, String, arith}
use yunova.Session.{
  LiveSession, register, forget, deliver, ask, emit, resolve_approval, set_close_reason,
  fail_inflight, finish,
}
use yunova.Session.Steps.{Step, Reach}

reason_kept :
    {s t : LiveSession} (r : String) → Step s t → s.close_reason ≡ some r → t.close_reason ≡ some r
unfolding register forget deliver ask emit resolve_approval set_close_reason fail_inflight finish
reason_kept r (Step.registers {s = s}) h = h
reason_kept r (Step.forgets {s = s} id) h = h
reason_kept r (Step.delivers {s = s} none v) h = h
reason_kept r (Step.delivers {s = s} (some id) v) h = ground arith
reason_kept r (Step.asks {s = s} id true raw) h = h
reason_kept r (Step.asks {s = s} id false raw) h = h
reason_kept r (Step.emits {s = s} event) h = h
reason_kept r (Step.resolves {s = s} id sent) h = ground arith
reason_kept r (Step.sets_reason {s = s} q) h = ground arith
reason_kept r (Step.finishes {s = s}) h = h

-- A reason that is recorded is the session's reason in every state that it reaches from there.
close_reason_kept :
    {s t : LiveSession} (r : String) → Reach s t → s.close_reason ≡ some r → t.close_reason ≡ some r
close_reason_kept r Reach.here h = h
close_reason_kept r (Reach.then q step) h = reason_kept r step (close_reason_kept r q h)
