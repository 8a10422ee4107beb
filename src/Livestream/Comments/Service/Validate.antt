-- ===== src/Livestream/Comments/Service/Validate.antt =====
-- Which comments pass: service.go, lines 50 to 68.
use Prim.Native.String.{len}
use classic_cheese.Prelude.{◌≤◌, ◌<◌, ap, ◌≡◌, ◌≢◌, arith}
use classic_cheese.Prelude.Text.{is_empty_iff, trim_space}
use classic_cheese.Livestream.Comments.Service.{
  Fields, Result, ok, err, AddError, video_id_required, author_required, text_required,
  author_too_long, text_too_long, check, max_author_len, max_text_len,
}

-- The fields without the white space around each.
abbrev pub without_spaces : Fields → Fields
without_spaces f = record {
  room = trim_space f.room;
  author = trim_space f.author;
  text = trim_space f.text;
}

-- What the service asks of the trimmed fields.
abbrev pub IsAcceptable : Fields → Type 0
IsAcceptable f =
    (f.room ≢ "")
    × (f.author ≢ "")
    × (f.text ≢ "")
    × (len f.author ≤ max_author_len)
    × (len f.text ≤ max_text_len)

-- The first rule that the fields break, in the order of the code.
abbrev pub Breaks : Fields → AddError → Type 0
Breaks f video_id_required = f.room ≡ ""
Breaks f author_required = (f.room ≢ "") × (f.author ≡ "")
Breaks f text_required = (f.room ≢ "") × (f.author ≢ "") × (f.text ≡ "")
Breaks f author_too_long =
    (f.room ≢ "") × (f.author ≢ "") × (f.text ≢ "") × (max_author_len < len f.author)
Breaks f text_too_long =
    (f.room ≢ "")
    × (f.author ≢ "")
    × (f.text ≢ "")
    × (len f.author ≤ max_author_len)
    × (max_text_len < len f.text)

abbrev pub IsJudged : Fields → Result Fields → Type 0
IsJudged f (ok g) = IsAcceptable f × (g ≡ f)
IsJudged f (err e) = Breaks f e

pub check-IsJudged : (f : Fields) → IsJudged f (check f)
unfolding check
check-IsJudged f = ground (arith, is_empty_iff f.room, is_empty_iff f.author, is_empty_iff f.text)

-- A rule that is broken makes the fields unacceptable.
pub Breaks-not-IsAcceptable : (f : Fields) (e : AddError) → Breaks f e → ¬ IsAcceptable f
Breaks-not-IsAcceptable f video_id_required b a = a.0 b
Breaks-not-IsAcceptable f author_required b a = a.1 b.1
Breaks-not-IsAcceptable f text_required b a = a.2 b.2
Breaks-not-IsAcceptable f author_too_long b a = omega arith
Breaks-not-IsAcceptable f text_too_long b a = omega arith

check-of_judged : (f : Fields) (r : Result Fields) → IsJudged f r → IsAcceptable f → r ≡ ok f
check-of_judged f (ok g) j a = ap ok j.1
check-of_judged f (err e) j a = absurd (Breaks-not-IsAcceptable f e j a)

pub check_acceptable : (f : Fields) → IsAcceptable f → check f ≡ ok f
check_acceptable f a = check-of_judged f (check f) (check-IsJudged f) a

pub check_broken : (f : Fields) (e : AddError) → Breaks f e → check f ≡ err e
unfolding check
check_broken f video_id_required b = ground (arith, is_empty_iff f.room)
check_broken f author_required b = ground (arith, is_empty_iff f.room, is_empty_iff f.author)
check_broken f _ b = ground (arith, is_empty_iff f.room, is_empty_iff f.author, is_empty_iff f.text)
