-- ===== src/PlainObject/Lifetime.antt =====
-- Who deletes a plain client object (cpp/implementations/plain/plain_logos_object.cpp): the guard of
-- every entry point, and `release`.
--
-- Each step is one atomic operation of one thread, and threads interleave in any order. What a
-- thread does between its steps touches the object, which must not have been deleted by then. The
-- names of entry points and the reports of misuse are left out.
use logos_protocol.Base.{
  ℕ, ◌+◌, ◌-◌, ◌<◌, ◌≡◌, refl, Bool, true, false, ◌⊎◌, if◌then◌else◌, ◌==◌, arith,
}

-- `m_liveRefs`, `m_callsInFlight` and `m_released`, with how often the object was deleted.
pub record Lifetime : Type 0 where
  pub live_refs : ℕ
  pub calls_in_flight : ℕ
  pub released : Bool
  pub deletions : ℕ

-- The constructor of `EntryGuard`: first the reference, then the count of calls.
unfoldable pub take_reference : Lifetime → Lifetime
take_reference l = record l { live_refs = l.live_refs + 1 }

unfoldable pub count_call : Lifetime → Lifetime
count_call l = record l { calls_in_flight = l.calls_in_flight + 1 }

-- Its destructor: the count of calls, and last the reference.
unfoldable pub uncount_call : Lifetime → Lifetime
uncount_call l = record l { calls_in_flight = l.calls_in_flight - 1 }

-- `if (m_liveRefs.fetch_sub(1) == 1) delete this`
unfoldable pub drop_reference : Lifetime → Lifetime
drop_reference l = record l {
  live_refs = l.live_refs - 1;
  deletions = if l.live_refs == 1 then l.deletions + 1 else l.deletions;
}

-- The first step of `release`; its last one is `drop_reference`.
unfoldable pub mark_released : Lifetime → Lifetime
mark_released l = record l { released = true }

-- The object, and where threads are: between the two steps of entering, inside, between the two steps
-- of leaving; and whether the owner still has its reference.
pub record Threads : Type 0 where
  pub object : Lifetime
  pub entering : ℕ
  pub inside : ℕ
  pub leaving : ℕ
  pub owned : Bool

abbrev pub born : Threads
born = record {
  object = record { live_refs = 1; calls_in_flight = 0; released = false; deletions = 0 };
  entering = 0;
  inside = 0;
  leaving = 0;
  owned = true;
}

-- A thread enters while the owner has not given its reference up, or from inside another entry point.
-- The owner releases once.
pub data Step (s : Threads) : Threads → Type 0 where
  enter :
      (s.owned ≡ true) ⊎ (0 < s.inside)
      → Step s (record s { object = take_reference s.object; entering = s.entering + 1 })
  entered :
      0 < s.entering
      → Step s (record s {
        object = count_call s.object;
        entering = s.entering - 1;
        inside = s.inside + 1;
      })
  leave :
      0 < s.inside
      → Step s (record s {
        object = uncount_call s.object;
        inside = s.inside - 1;
        leaving = s.leaving + 1;
      })
  left :
      0 < s.leaving
      → Step s (record s { object = drop_reference s.object; leaving = s.leaving - 1 })
  release_begins : s.object.released ≡ false → Step s (record s { object = mark_released s.object })
  release_ends :
      s.object.released ≡ true
      → s.owned ≡ true
      → Step s (record s { object = drop_reference s.object; owned = false })

pub data Reachable : Threads → Type 0 where
  start : Reachable born
  step : {s t : Threads} → Reachable s → Step s t → Reachable t

abbrev owner_reference : Bool → ℕ
owner_reference true = 1
owner_reference false = 0

-- The references of a state, by who holds them.
unfoldable pub holders : Threads → ℕ
holders s = s.entering + s.inside + s.leaving + owner_reference s.owned

record Counted (s : Threads) : Type 0 where
  pub references : s.object.live_refs ≡ holders s
  pub calls : s.object.calls_in_flight ≡ s.inside
  pub deleted : s.object.deletions ≡ (if holders s == 0 then 1 else 0)

Counted-Step : {s t : Threads} → Counted s → Step s t → Counted t
unfolding holders take_reference count_call uncount_call drop_reference mark_released
Counted-Step {s} c (enter h) = record {
  references = ground (arith, c.references, h);
  calls = ground (arith, c.calls, h);
  deleted = ground (arith, c.references, c.deleted, h);
}
Counted-Step {s} c (entered h) = record {
  references = ground (arith, c.references, h);
  calls = ground (arith, c.calls, h);
  deleted = ground (arith, c.references, c.deleted, h);
}
Counted-Step {s} c (leave h) = record {
  references = ground (arith, c.references, h);
  calls = ground (arith, c.calls, h);
  deleted = ground (arith, c.references, c.deleted, h);
}
Counted-Step {s} c (left h) = record {
  references = ground (arith, c.references, h);
  calls = ground (arith, c.calls, h);
  deleted = ground (arith, c.references, c.deleted, h);
}
Counted-Step {s} c (release_begins h) = record {
  references = ground (arith, c.references, h);
  calls = ground (arith, c.calls, h);
  deleted = ground (arith, c.references, c.deleted, h);
}
Counted-Step {s} c (release_ends r h) = record {
  references = ground (arith, c.references, r, h);
  calls = ground (arith, c.calls, r, h);
  deleted = ground (arith, c.references, c.deleted, r, h);
}

Counted-Reachable : {s : Threads} → Reachable s → Counted s
unfolding holders
Counted-Reachable start = record { references = refl; calls = refl; deleted = refl }
Counted-Reachable (step r s) = Counted-Step (Counted-Reachable r) s

-- However threads enter, leave and release the object: the object counts the owner and every thread
-- that is in an entry point, and it is deleted exactly once, when the last of them is gone; so it
-- is not deleted while a thread is in an entry point. Threads enter while the owner has not given
-- its reference up, or from inside another entry point, and the owner releases once.
pub deleted_once :
    {s : Threads}
    → Reachable s
    → (s.object.live_refs ≡ holders s)
      × (s.object.calls_in_flight ≡ s.inside)
      × (s.object.deletions ≡ (if holders s == 0 then 1 else 0))
deleted_once r = let c = Counted-Reachable r in (c.references, c.calls, c.deleted)
