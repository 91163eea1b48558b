-- ===== src/HttpRequest/Trim.antt =====
-- `HttpRequest::trim`: the white space at both ends.
use mini_server.Prelude.{◌≡◌, sym, ap, ◌∙◌, [], ◌∷◌, ◌++◌, All}
use mini_server.Bytes.{Bytes, is_space, take_while, drop_while, drop_while_end}
use mini_server.Bytes.Scan.{
  Passes, Stops, EndStops, take_while-append-drop_while, take_while-Passes, drop_while-Stops,
  drop_while_end-EndStops, drop_while_end-Extends,
}
use mini_server.HttpRequest.{trim}

-- `t` is `s` without white space at its ends, and what was taken off is white space.
pub record IsTrimmed (s t : Bytes) : Type 0 where
  pub front : Bytes
  pub back : Bytes
  pub splits : s ≡ front ++ (t ++ back)
  pub front_blank : All (Passes is_space) front
  pub back_blank : All (Passes is_space) back
  pub starts : Stops is_space t
  pub ends : EndStops is_space t

-- A prefix of a string that does not start with white space does not either.
Stops-prefix : (r t : Bytes) → Stops is_space (r ++ t) → Stops is_space r
Stops-prefix [] t h = tt
Stops-prefix (c ∷ r) t h = h

-- `trim` takes off exactly the white space around the text: what it takes off at both ends is white
-- space, and what it returns neither starts nor ends with white space.
pub trim-IsTrimmed : (s : Bytes) → IsTrimmed s (trim s)
unfolding trim
trim-IsTrimmed s =
    let inner : Bytes = drop_while is_space s in
    let (back, e, blank) = drop_while_end-Extends is_space inner in
    record {
      front = take_while is_space s;
      back = back;
      splits =
          sym (take_while-append-drop_while is_space s) ∙ ap (◌++◌ (take_while is_space s)) (sym e);
      front_blank = take_while-Passes is_space s;
      back_blank = blank;
      starts =
          Stops-prefix (drop_while_end is_space inner) back (rw e (drop_while-Stops is_space s));
      ends = drop_while_end-EndStops is_space inner;
    }
