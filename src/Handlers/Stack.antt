-- ===== src/Handlers/Stack.antt =====
-- app/decorators/handlers.py, and UseHandler of app/definition/_ressource.py: what a stack of
-- handlers makes of a call.
use notifyr.Base.{
  ◌≡◌, refl, ◌∙◌, sym, ap, true, false, not, List, [], ◌∷◌, ◌++◌, arith, all, any, keep, all-append,
  All, Among, contains, String, ℕ, Option, inl, inr,
}
use notifyr.Handlers.{
  Raised, Outcome, returned, returned_none, raised, Row, treat, handle, use_handlers,
  except_default, stack_handlers,
}
use notifyr.Handlers.Records.{profile_handler}
use notifyr.Handlers.Requests.{twilio_handler}
use notifyr.Handlers.Stores.{mem_cached_handler}
use notifyr.Handlers.Catalog.{handlers}
use notifyr.Handlers.Laws.{
  IsLawful, IsOrdinary, has_error_status, swallows, is_plain, one_table, treat-IsLawful,
  treat-IsOrdinary, treat-append,
}

handler-has_error_status :
    (hs : List (List Row)) (rows : List Row)
    → all (all has_error_status) hs ≡ true
    → Among rows hs
    → all has_error_status rows ≡ true
handler-has_error_status [] rows h m = absurd m
handler-has_error_status (x ∷ hs) rows h (inl e) = rw (sym e) (ground arith)
handler-has_error_status (x ∷ hs) rows h (inr m) = handler-has_error_status hs rows (ground arith) m

handle-IsLawful {ℓ} :
    (A : Type ℓ) (rows : List Row) (o : Outcome A)
    → all has_error_status rows ≡ true
    → IsLawful o
    → IsLawful (handle rows o)
unfolding handle
handle-IsLawful A rows (returned _) h k = tt
handle-IsLawful A rows returned_none h k = tt
handle-IsLawful A rows (raised e) h k = treat-IsLawful A rows e h k

one_table-is_plain :
    (hs : List (List Row)) → all (all is_plain) hs ≡ true → all is_plain (one_table hs) ≡ true
one_table-is_plain [] h = refl
one_table-is_plain (rows ∷ hs) h =
    all-append is_plain (one_table hs) rows (one_table-is_plain hs (ground arith)) (ground arith)

module _ {ℓ} {A : Type ℓ} where
  -- Whatever handlers of the file stand around a call: if the status that its exception carries is
  -- one from 400 to 599, so is the status of what comes out.
  pub use_handlers-IsLawful :
      (hs : List (List Row)) (o : Outcome A)
      → All (λ rows. Among rows handlers) hs
      → IsLawful o
      → IsLawful (use_handlers hs o)
  unfolding use_handlers
  use_handlers-IsLawful [] o h k = k
  use_handlers-IsLawful (rows ∷ hs) o h k =
      handle-IsLawful A rows (use_handlers hs o) (handler-has_error_status handlers rows refl h.0)
        (use_handlers-IsLawful hs o h.1 k)

  handle-append :
      (inner outer : List Row) (o : Outcome A)
      → all is_plain inner ≡ true
      → all is_plain outer ≡ true
      → handle outer (handle inner o) ≡ handle (inner ++ outer) o
  unfolding handle
  handle-append inner outer (returned _) h k = refl
  handle-append inner outer returned_none h k = refl
  handle-append inner outer (raised e) h k = treat-append A inner outer e h k

  handle-nil : (o : Outcome A) → o ≡ handle [] o
  unfolding handle treat
  handle-nil (returned _) = refl
  handle-nil returned_none = refl
  handle-nil (raised _) = refl

  -- Every handler of the file but ProfileHandler is plain: it catches nothing that handlers answer.
  -- A stack of plain handlers is one handler with all their clauses, the innermost's first.
  pub use_handlers-one_table :
      (hs : List (List Row)) (o : Outcome A)
      → all (all is_plain) hs ≡ true
      → (keep (λ rows. not (all is_plain rows)) handlers ≡ profile_handler ∷ [])
        × (use_handlers hs o ≡ handle (one_table hs) o)
  unfolding use_handlers
  use_handlers-one_table [] o h = (refl, handle-nil o)
  use_handlers-one_table (rows ∷ hs) o h = (
    refl,
    ap (handle rows) (use_handlers-one_table hs o (ground arith)).1
        ∙ handle-append (one_table hs) rows o (one_table-is_plain hs (ground arith)) (ground arith),
  )

handle-IsOrdinary {ℓ} :
    (A : Type ℓ) (rows : List Row) (o : Outcome A)
    → any swallows rows ≡ false
    → IsOrdinary o
    → IsOrdinary (handle rows o)
unfolding handle
handle-IsOrdinary A rows (returned _) h k = k
handle-IsOrdinary A rows returned_none h k = k
handle-IsOrdinary A rows (raised e) h k = treat-IsOrdinary A rows e h k

use_handlers-IsOrdinary {ℓ} :
    (A : Type ℓ) (hs : List (List Row)) (e : Raised)
    → any (any swallows) hs ≡ false
    → contains "HandlerDefaultException" e.mro ≡ false
    → IsOrdinary (use_handlers {A = A} hs (raised e))
unfolding use_handlers
use_handlers-IsOrdinary A [] e h k = k
use_handlers-IsOrdinary A (rows ∷ hs) e h k =
    handle-IsOrdinary A rows (use_handlers hs (raised e)) (ground arith)
      (use_handlers-IsOrdinary A hs e (ground arith) k)

module _ {ℓ} (A : Type ℓ) (response : Raised → Option A) (default_error : Option (ℕ × String)) where
  except_default-IsOrdinary :
      (o : Outcome A) → IsOrdinary o → IsOrdinary (except_default response default_error o)
  unfolding except_default
  except_default-IsOrdinary (returned _) k = k
  except_default-IsOrdinary returned_none k = k
  except_default-IsOrdinary (raised e) k = rw k k

  -- TwilioHandler and MemCachedHandler are the handlers of the file that swallow exceptions. Under
  -- UseHandler with handlers that do not swallow, and whatever its default error, a call that raised an
  -- exception other than a HandlerDefaultException, the one class that UseHandler itself answers, ends
  -- with such an exception.
  pub stack_handlers-IsOrdinary :
      (hs : List (List Row)) (e : Raised)
      → any (any swallows) hs ≡ false
      → contains "HandlerDefaultException" e.mro ≡ false
      → (keep (any swallows) handlers ≡ twilio_handler ∷ mem_cached_handler ∷ [])
        × IsOrdinary (stack_handlers response default_error hs (raised e))
  unfolding stack_handlers
  stack_handlers-IsOrdinary [] e h k = (refl, k)
  stack_handlers-IsOrdinary (rows ∷ hs) e h k = (
    refl,
    except_default-IsOrdinary (use_handlers (rows ∷ hs) (raised e))
        (use_handlers-IsOrdinary A (rows ∷ hs) e h k),
  )
