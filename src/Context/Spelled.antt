-- ===== src/Context/Spelled.antt =====
-- A digest that writes a value out, for runs at concrete values (src/context/fingerprint.ts).
use chatgpt_web_gateway.Base.{true, false, [], ◌++◌}
use chatgpt_web_gateway.Text.{Text, text, text_eq}
use chatgpt_web_gateway.Text.Laws.{text_eq_iff}
use chatgpt_web_gateway.Context.Fingerprint.{
  Json, undefined, null, bool, number, str, arr, obj, Items, nil, cons, Fields, end, field, Digest,
}

mutual
  pub written : Json → Text
  written undefined = text "u"
  written null = text "n"
  written (bool true) = text "t"
  written (bool false) = text "f"
  written (number n) = text "#" ++ n
  written (str s) = text "'" ++ (s ++ text "'")
  written (arr xs) = text "[" ++ (written_items xs ++ text "]")
  written (obj fs) = text "{" ++ (written_fields fs ++ text "}")

  written_items : Items → Text
  written_items nil = []
  written_items (cons x xs) = written x ++ (text "," ++ written_items xs)

  written_fields : Fields → Text
  written_fields end = []
  written_fields (field k v fs) = k ++ (text ":" ++ (written v ++ (text "," ++ written_fields fs)))

abbrev pub spelled : Digest
spelled = record { Hash = Text; hash = written; same_hash = text_eq; same_hash_iff = text_eq_iff }

-- Names what the digest computes through.
unfoldable pub spelled_runs : Unit {0}
unfolding written written_items written_fields
spelled_runs = tt
