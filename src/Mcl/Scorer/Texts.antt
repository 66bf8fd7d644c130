-- ===== src/Mcl/Scorer/Texts.antt =====
-- A way to write strings into a text and read them back, in the place of JSON in the runs of
-- rex_similarity_scorer.cc: it shows that what is asked of the library can hold. Each string begins with
-- a comma, and each of its characters with an x.
use Prim.Native.Char.{Char, char, code}
use regextools_api.Base.{◌≡◌, refl, ap, ◌∙◌, String, List, [], ◌∷◌, if◌then◌else◌, ◌==◌}
use regextools_api.Mcl.Scorer.{Loaded, parse_error, loaded}

abbrev comma : Char
comma = char 44 tt

abbrev x : Char
x = char 120 tt

-- A string in front of a text.
abbrev written : String → String → String
written String.[] text = text
written (String.◌∷◌ c s) text = String.◌∷◌ x (String.◌∷◌ c (written s text))

abbrev pub dump_texts : List String → String
dump_texts [] = ""
dump_texts (s ∷ ss) = String.◌∷◌ comma (written s (dump_texts ss))

-- The characters up to the first comma, and the strings behind it.
abbrev read_back : String → String × List String
read_back String.[] = ("", [])
read_back (String.◌∷◌ c String.[]) = ("", "" ∷ [])
read_back (String.◌∷◌ c (String.◌∷◌ d text)) =
    let here = read_back (String.◌∷◌ d text) in
    let behind = read_back text in
    if code c == 44 then ("", here.0 ∷ here.1) else (String.◌∷◌ d behind.0, behind.1)

abbrev pub parse_texts : String → Loaded
parse_texts String.[] = parse_error
parse_texts (String.◌∷◌ c text) = loaded (read_back (String.◌∷◌ c text)).1

read_back-written :
    (s text : String)
    → (read_back text).0 ≡ ""
    → read_back (written s text) ≡ (s, (read_back text).1)
read_back-written String.[] text h = ap (λ t. (t, (read_back text).1)) h
read_back-written (String.◌∷◌ c s) text h =
    ap (λ r. (String.◌∷◌ c r.0, r.1)) (read_back-written s text h)

-- A comma begins a string.
read_back-comma :
    (text : String)
    → read_back (String.◌∷◌ comma text) ≡ ("", (read_back text).0 ∷ (read_back text).1)
read_back-comma String.[] = refl
read_back-comma (String.◌∷◌ c text) = refl

read_back-dump_texts : (ss : List String) → read_back (dump_texts ss) ≡ ("", ss)
read_back-dump_texts [] = refl
read_back-dump_texts (s ∷ ss) =
    let rest = read_back-dump_texts ss in
    read_back-comma (written s (dump_texts ss))
    ∙ ap (λ r. ("", r.0 ∷ r.1)) (read_back-written s (dump_texts ss) (ap (λ r. r.0) rest))
    ∙ ap (λ r. ("", s ∷ r.1)) rest

pub parse_texts-dump_texts :
    (s : String) (ss : List String) → parse_texts (dump_texts (s ∷ ss)) ≡ loaded (s ∷ ss)
parse_texts-dump_texts s ss = ap (λ r. loaded r.1) (read_back-dump_texts (s ∷ ss))
