-- ===== src/Dispatcher/Noop/Plain/Messages.antt =====
-- The messages that internal/dispatcher/noop.go prints, and its whole output, with colours and without.
use Prim.Native.String.{◌++◌ as ◌<>◌}
use origamy_go_sdk.Base.{
  ℕ, ◌+◌, ◌≡◌, refl, Bool, true, false, ◌||◌, String, Option, none, some, List, [], ◌∷◌, All, arith,
  if◌then◌else◌,
}
use origamy_go_sdk.Base.Int.{pos}
use origamy_go_sdk.Data.{Value, Entries, end, entry}
use origamy_go_sdk.Data.Dict.{Dict, same, lookup}
use origamy_go_sdk.Segments.Text.{format_int}
use origamy_go_sdk.Dispatcher.Noop.{
  NoopDispatcher, repeat, success, highlight, color_type, icon, icons, shown,
}
use origamy_go_sdk.Dispatcher.Noop.Print.{
  Library, text_of, dict_of, or_empty, nonempty, print_if, print_dict, print_properties,
  print_fields, print_message, print_messages, print_footer,
}
use origamy_go_sdk.Dispatcher.Noop.Colours.{is_plain, Fades, plain-Fades, append-Fades}
use origamy_go_sdk.Dispatcher.Noop.Plain.{
  AllFade, nothing, line, append-AllFade, uncolored, highlight-Fades, success-Fades, warn-Fades,
  dim-Fades, color_type-Fades, lookup-All,
}
use origamy_go_sdk.Dispatcher.Noop.Plain.Lines.{labelled, append-plain, format_int-plain}

abbrev pub PlainKeys : Entries → Type 0
PlainKeys end = Unit
PlainKeys (entry k v es) = (is_plain k ≡ true) × PlainKeys es

-- A message whose texts, and the keys of whose objects, have no ESC.
pub record IsPlain (msg : Dict Value) : Type 0 where
  pub texts : (key s : String) → text_of key msg ≡ some s → is_plain s ≡ true
  pub keys : (key : String) → PlainKeys (dict_of key msg)

either-AllFade :
    {xs ys xs' ys' : List String} (b : Bool)
    → AllFade xs ys
    → AllFade xs' ys'
    → AllFade (if b then xs else xs') (if b then ys else ys')
either-AllFade true f g = f
either-AllFade false f g = g

or_empty-plain :
    (o : Option String)
    → ((s : String) → o ≡ some s → is_plain s ≡ true)
    → is_plain (or_empty o) ≡ true
or_empty-plain none h = refl
or_empty-plain (some s) h = h s refl

shown-plain :
    (d : NoopDispatcher) (o : Option String)
    → ((s : String) → o ≡ some s → is_plain s ≡ true)
    → is_plain (shown d o) ≡ true
shown-plain d none h = refl
shown-plain d (some s) h = h s refl

icon-plain : (d : NoopDispatcher) (s : String) → is_plain (icon d s) ≡ true
unfolding icon
icon-plain d s =
    shown-plain d (lookup s (icons d))
      (λ c. lookup-All is_plain s (icons d) c (refl, (refl, (refl, (refl, (refl, (refl, tt)))))))

module _ (lib : Library) (d : NoopDispatcher) where
  print_if-AllFade :
      (f g : String → String) (o : Option String)
      → ((s : String) → o ≡ some s → Fades (f s) (g s))
      → AllFade (print_if f o) (print_if g o)
  print_if-AllFade f g none h = nothing
  print_if-AllFade f g (some s) h = line (h s refl) nothing

  nonempty-some : (o : Option String) (s : String) → nonempty o ≡ some s → o ≡ some s
  nonempty-some none s h = ground arith
  nonempty-some (some t) s h = ground arith

  -- A line for a text, if there is one.
  success_line :
      (pre : String) (o : Option String)
      → is_plain pre ≡ true
      → ((s : String) → o ≡ some s → is_plain s ≡ true)
      → AllFade
          (print_if (λ s. pre <> success d s <> "\n") o)
          (print_if (λ s. pre <> success (uncolored d) s <> "\n") o)
  success_line pre o p h =
      print_if-AllFade _ _ o (λ s e. labelled pre _ _ "\n" p refl (success-Fades d s (h s e)))

  highlight_line :
      (pre : String) (o : Option String)
      → is_plain pre ≡ true
      → ((s : String) → o ≡ some s → is_plain s ≡ true)
      → AllFade
          (print_if (λ s. pre <> highlight d s <> "\n") o)
          (print_if (λ s. pre <> highlight (uncolored d) s <> "\n") o)
  highlight_line pre o p h =
      print_if-AllFade _ _ o (λ s e. labelled pre _ _ "\n" p refl (highlight-Fades d s (h s e)))

  module _ (encoded : (v : Value) → is_plain (lib.encode v) ≡ true) where
    print_properties-AllFade :
        (es : Entries)
        → PlainKeys es
        → AllFade (print_properties lib d es 6) (print_properties lib (uncolored d) es 6)
    unfolding print_properties
    print_properties-AllFade end k = nothing
    print_properties-AllFade (entry key v es) k =
        line
          (labelled (repeat " " 6) _ _ (": " <> lib.encode v <> "\n") refl
            (append-plain ": " (lib.encode v <> "\n") refl
              (append-plain (lib.encode v) "\n" (encoded v) refl))
            (dim-Fades d key k.0))
          (print_properties-AllFade es k.1)

    print_dict-AllFade :
        (title : String) (es : Entries)
        → is_plain title ≡ true
        → PlainKeys es
        → AllFade (print_dict lib d title es) (print_dict lib (uncolored d) title es)
    print_dict-AllFade title end p k = nothing
    print_dict-AllFade title (entry key v es) p k =
        line (plain-Fades title p) (print_properties-AllFade (entry key v es) k)

    print_fields-AllFade :
        (msg_type : String) (msg : Dict Value)
        → IsPlain msg
        → AllFade (print_fields lib d msg_type msg) (print_fields lib (uncolored d) msg_type msg)
    unfolding print_fields
    print_fields-AllFade msg_type msg p =
        either-AllFade (same msg_type "track")
          (append-AllFade
            (success_line "    Event:        " (text_of "event" msg) refl (p.texts "event"))
            (print_dict-AllFade "    Properties:\n" _ refl (p.keys "properties")))
          (either-AllFade (same msg_type "identify")
            (print_dict-AllFade "    Traits:\n" _ refl (p.keys "traits"))
            (either-AllFade (same msg_type "page" || same msg_type "screen")
              (append-AllFade
                (success_line "    Name:         " (nonempty (text_of "name" msg)) refl
                  (λ s e. p.texts "name" s (nonempty-some (text_of "name" msg) s e)))
                (print_dict-AllFade "    Properties:\n" _ refl (p.keys "properties")))
              (either-AllFade (same msg_type "group")
                (append-AllFade
                  (success_line "    Group ID:     " (text_of "groupId" msg) refl
                    (p.texts "groupId"))
                  (print_dict-AllFade "    Traits:\n" _ refl (p.keys "traits")))
                (either-AllFade (same msg_type "alias")
                  (print_if-AllFade _ _ (text_of "previousId" msg) (λ s e.
                    labelled "    Previous ID:  " _ _ "\n" refl refl
                      (warn-Fades d s (p.texts "previousId" s e))))
                  nothing))))

    module _ (upper : (s : String) → is_plain s ≡ true → is_plain (lib.to_upper s) ≡ true) where
      title_line :
          (index : ℕ) (type : String)
          → is_plain type ≡ true
          → Fades
              ("  "
                <> icon d type
                <> " Message #"
                <> format_int (pos index)
                <> ": "
                <> color_type d (lib.to_upper type)
                <> "\n")
              ("  "
                <> icon (uncolored d) type
                <> " Message #"
                <> format_int (pos index)
                <> ": "
                <> color_type (uncolored d) (lib.to_upper type)
                <> "\n")
      unfolding icon
      title_line index type p = append-Fades _ _ _ _ (plain-Fades "  " refl) (
          append-Fades _ _ _ _ (plain-Fades (icon d type) (icon-plain d type)) (
            append-Fades _ _ _ _ (plain-Fades " Message #" refl) (
              append-Fades _ _ _ _ (plain-Fades (format_int (pos index)) (format_int-plain index)) (
                labelled ": " _ _ "\n" refl refl
                  (color_type-Fades d (lib.to_upper type) (upper type p))))))

      print_message-AllFade :
          (index : ℕ) (msg : Dict Value)
          → IsPlain msg
          → AllFade (print_message lib d index msg) (print_message lib (uncolored d) index msg)
      unfolding print_message
      print_message-AllFade index msg p =
          let type = or_empty (text_of "type" msg) in
          let type_plain = or_empty-plain (text_of "type" msg) (p.texts "type") in
          let id_plain = or_empty-plain (text_of "messageId" msg) (p.texts "messageId") in
          append-AllFade
            (append-AllFade
              (append-AllFade
                (append-AllFade
                  (line (plain-Fades _ refl) (
                    line (title_line index type type_plain) (
                      line (plain-Fades _ refl) (
                        line
                          (labelled "    Message ID:   " _ _ "\n" refl refl
                            (dim-Fades d _ id_plain))
                          nothing))))
                  (highlight_line "    User ID:      " (nonempty (text_of "userId" msg)) refl
                    (λ s e. p.texts "userId" s (nonempty-some (text_of "userId" msg) s e))))
                (highlight_line "    Anonymous ID: " (nonempty (text_of "anonymousId" msg)) refl
                  (λ s e. p.texts "anonymousId" s (nonempty-some (text_of "anonymousId" msg) s e))))
              (print_fields-AllFade type msg p))
            (print_if-AllFade _ _ (text_of "timestamp" msg) (λ s e.
              labelled "    Timestamp:    " _ _ "\n" refl refl
                (dim-Fades d s (p.texts "timestamp" s e))))

      pub print_messages-AllFade :
          (i : ℕ) (msgs : List (Dict Value))
          → All IsPlain msgs
          → AllFade (print_messages lib d i msgs) (print_messages lib (uncolored d) i msgs)
      unfolding print_messages
      print_messages-AllFade i [] p = nothing
      print_messages-AllFade i (msg ∷ msgs) p =
          append-AllFade (print_message-AllFade (i + 1) msg p.0)
            (print_messages-AllFade (i + 1) msgs p.1)

  pub print_footer-AllFade : AllFade (print_footer lib d) (print_footer lib (uncolored d))
  unfolding print_footer
  print_footer-AllFade = line (plain-Fades _ refl) (
      line (plain-Fades _ refl) (
        line
          (labelled "  " _ _ " This is a NOOP dispatcher - no data was sent\n" refl refl
            (warn-Fades d "⚠" refl))
          (line (plain-Fades _ refl) (line (plain-Fades _ refl) nothing))))
