-- ===== src/Dispatcher/Noop/Output.antt =====
-- What `Send` of internal/dispatcher/noop.go returns, logs and writes.
use mathlib.Core.List.{cons-ne-nil}
use origamy_go_sdk.Base.{
  ℕ, ◌≡◌, ◌≢◌, ◌↔◌, refl, true, String, Option, none, some, List, [], map, All, arith, length,
}
use origamy_go_sdk.Data.{Error, Reference, Time, Value, Result, ok, err}
use origamy_go_sdk.Data.Dict.{Dict}
use origamy_go_sdk.Dispatcher.Noop.{NoopDispatcher}
use origamy_go_sdk.Dispatcher.Noop.Print.{
  logged_by, Sent, fails, Batch, Library, print_header, print_decoded, print_batch, send,
}
use origamy_go_sdk.Dispatcher.Noop.Colours.{strip, is_plain}
use origamy_go_sdk.Dispatcher.Noop.Plain.{uncolored, append-AllFade, strip-AllFade}
use origamy_go_sdk.Dispatcher.Noop.Plain.Lines.{print_header-AllFade}
use origamy_go_sdk.Dispatcher.Noop.Plain.Messages.{
  IsPlain, print_messages-AllFade, print_footer-AllFade,
}

-- The payload is a batch whose messages are objects.
abbrev pub Decodes : Library → List ℕ → Type 0
Decodes lib payload =
    (b : Batch) × (ms : List (Dict Value)) × (lib.decode_batch payload ≡ ok b)
    × (lib.decode_messages b.messages ≡ ok ms)

module _ (lib : Library) (d : NoopDispatcher) (payload : List ℕ) where
  abbrev Reports : Sent → Type 0 → Type 0
  Reports s D =
      (s.result ≡ none)
      × ((s.written ≢ []) ↔ D)
      × ((l : Reference) → d.config.logger ≡ some l → (s.logged ≡ []) ↔ D)

  logs_one :
      (format : String) (e : Error) (o : Option Reference) (l : Reference)
      → o ≡ some l
      → logged_by o format e ≢ []
  logs_one format e none l h = ground arith
  logs_one format e (some x) l h = λ q. cons-ne-nil _ _ q

  fails-Reports :
      (D : Type 0) (format : String) (e : Error) → ¬ D → Reports (fails lib d format e) D
  fails-Reports D format e n = (
    refl,
    (λ h. absurd (h refl), λ x. absurd (n x)),
    λ l h. (λ q. absurd (logs_one format e d.config.logger l h q), λ x. absurd (n x)),
  )

  batch-Reports :
      (b : Batch) (r : Result (List (Dict Value)))
      → lib.decode_batch payload ≡ ok b
      → lib.decode_messages b.messages ≡ r
      → Reports (print_batch lib d b r) (Decodes lib payload)
  unfolding print_header
  batch-Reports b (err e) p q =
      fails-Reports _ "Failed to parse messages: %v" e (λ x. ground (arith, p, q, x.2, x.3))
  batch-Reports b (ok ms) p q =
      (refl, (λ h. (b, ms, p, q), λ x z. cons-ne-nil _ _ z), λ l h. (λ z. (b, ms, p, q), λ x. refl))

  decoded-Reports :
      (r : Result Batch)
      → lib.decode_batch payload ≡ r
      → Reports (print_decoded lib d r) (Decodes lib payload)
  decoded-Reports (err e) p =
      fails-Reports _ "Failed to parse payload: %v" e (λ x. ground (arith, p, x.2))
  decoded-Reports (ok b) p = batch-Reports b (lib.decode_messages b.messages) p refl

  -- `Send` never returns an error; it writes where the payload decodes, and there only; and with a
  -- logger it logs where the payload does not decode, and there only.
  pub send_never_fails :
      ((send lib d payload).result ≡ none)
      × (((send lib d payload).written ≢ []) ↔ Decodes lib payload)
      × ((l : Reference)
          → d.config.logger ≡ some l
          → ((send lib d payload).logged ≡ []) ↔ Decodes lib payload)
  unfolding send
  send_never_fails = decoded-Reports (lib.decode_batch payload) refl

module _ (lib : Library) (encoded : (v : Value) → is_plain (lib.encode v) ≡ true)
    (dated : (t : Time) → is_plain (lib.rfc3339 t) ≡ true)
    (upper : (s : String) → is_plain s ≡ true → is_plain (lib.to_upper s) ≡ true)
    (d : NoopDispatcher) where
  batch_colors :
      (b : Batch) (r : Result (List (Dict Value)))
      → is_plain b.message_id ≡ true
      → ((ms : List (Dict Value)) → r ≡ ok ms → All IsPlain ms)
      → map strip (print_batch lib d b r).written ≡ (print_batch lib (uncolored d) b r).written
  batch_colors b (err e) p h = refl
  batch_colors b (ok ms) p h = strip-AllFade (
      append-AllFade
        (append-AllFade
          (print_header-AllFade lib d b.message_id b.sent_at (length ms) p (dated b.sent_at))
          (print_messages-AllFade lib d encoded upper 0 ms (h ms refl)))
        (print_footer-AllFade lib d))

  decoded_colors :
      (r : Result Batch)
      → ((b : Batch) → r ≡ ok b → is_plain b.message_id ≡ true)
      → ((b : Batch) (ms : List (Dict Value))
          → r ≡ ok b
          → lib.decode_messages b.messages ≡ ok ms
          → All IsPlain ms)
      → map strip (print_decoded lib d r).written ≡ (print_decoded lib (uncolored d) r).written
  decoded_colors (err e) p h = refl
  decoded_colors (ok b) p h =
      batch_colors b (lib.decode_messages b.messages) (p b refl) (λ ms e. h b ms refl e)

  -- Colours add escape sequences and nothing else: where neither the batch's id, its messages' texts
  -- and keys, nor what the standard library prints have an ESC, the texts that `Send` writes are, with
  -- their escape sequences taken out, those that it writes without colours, in the same order.
  pub send_colors :
      (payload : List ℕ)
      → ((b : Batch) → lib.decode_batch payload ≡ ok b → is_plain b.message_id ≡ true)
      → ((b : Batch) (ms : List (Dict Value))
          → lib.decode_batch payload ≡ ok b
          → lib.decode_messages b.messages ≡ ok ms
          → All IsPlain ms)
      → map strip (send lib d payload).written ≡ (send lib (uncolored d) payload).written
  unfolding send
  send_colors payload p h = decoded_colors (lib.decode_batch payload) p h
