-- ===== src/FilePath.antt =====
-- What the program uses of Go's `path/filepath`, on a Unix host.
use cpmulator.Base.{Bool, List, [], ◌∷◌, ◌++◌, reverse, if◌then◌else◌, Text, text_eq}
use cpmulator.Text.{split, has_prefix, join}

-- One component of a path on the stack of those before it, last first.
unfoldable pub push : Bool → List Text → Text → List Text
push rooted [] c =
    if text_eq c []
    then []
    else if text_eq c (b'.' ∷ [])
    then []
    else if text_eq c (b'.' ∷ b'.' ∷ [])
    then (if rooted then [] else c ∷ [])
    else c ∷ []
push rooted (top ∷ out) c =
    if text_eq c []
    then top ∷ out
    else if text_eq c (b'.' ∷ [])
    then top ∷ out
    else if text_eq c (b'.' ∷ b'.' ∷ [])
    then up
    else c ∷ top ∷ out
  where
    up : List Text
    up = if text_eq top (b'.' ∷ b'.' ∷ []) then c ∷ top ∷ out else out

unfoldable pub push_all : Bool → List Text → List Text → List Text
unfolding push
push_all rooted out [] = out
push_all rooted out (c ∷ cs) = push_all rooted (push rooted out c) cs

-- `filepath.Clean`
unfoldable pub clean : Text → Text
unfolding push_all split has_prefix join
clean p = finish (push_all rooted [] ((split b'/' p).0 ∷ (split b'/' p).1))
  where
    rooted : Bool
    rooted = has_prefix p (b'/' ∷ [])

    finish : List Text → Text
    finish [] = if rooted then b'/' ∷ [] else b'.' ∷ []
    finish (c ∷ out) =
        if rooted
        then b'/' ∷ join (b'/' ∷ []) (reverse (c ∷ out))
        else join (b'/' ∷ []) (reverse (c ∷ out))

-- `filepath.Join` of two elements.
unfoldable pub join_path : Text → Text → Text
unfolding clean
join_path [] [] = []
join_path [] (c ∷ name) = clean (c ∷ name)
join_path (d ∷ dir) name = clean ((d ∷ dir) ++ b'/' ∷ name)

unfoldable pub last_part : Text → List Text → Text
last_part found [] = found
last_part found (p ∷ ps) = last_part (if text_eq p [] then found else p) ps

-- `filepath.Base`
unfoldable pub base : Text → Text
unfolding last_part split
base [] = b'.' ∷ []
base (c ∷ p) = last_part (b'/' ∷ []) ((split b'/' (c ∷ p)).0 ∷ (split b'/' (c ∷ p)).1)
