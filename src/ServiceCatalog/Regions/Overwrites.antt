-- ===== src/ServiceCatalog/Regions/Overwrites.antt =====
-- A generated region is replaced as a whole, and what stands around it is kept.
pub mod Framed
use home_server.Common.{
  contains, arith, ℕ, suc, ◌+◌, ◌<◌, leb, String, str_eq, eq_iff, eq_refl, ◌≡◌, refl, sym, ap, ◌∙◌,
  inl, inr, Bool, Bool-cases, true, false, ◌||◌, List, [], ◌∷◌, ◌++◌, append_assoc, length,
  length-append, take, Option, none, some, All, All-append, Py, ok, raise,
}
use home_server.Common.Lines.{splitlines}
use home_server.Common.Feeds.{IsLine, splitlines-join, splitlines-IsLine}
use home_server.ServiceCatalog.Regions.{
  index_of, next, drop, with_region, region_lines, as_text, text_of_lines, replace_generated_region,
}
use home_server.ServiceCatalog.Regions.Overwrites.Framed.{
  framed, take-framed, drop-append, index_of-append, index_of-found, cut, contains-append, IsFramed,
  assembled, two_parts,
}

module _ (name s e : String) where
  place :
      (generated lines : List String) (start stop : ℕ)
      → leb stop start ≡ false
      → with_region name generated lines (some start) (some stop)
        ≡ ok (take (start + 1) lines ++ generated ++ drop stop lines)
  unfolding with_region
  place generated lines start stop h = rw h

  region_lines-framed :
      (generated above region below : List String)
      → IsFramed s e above region
      → region_lines name s e generated (framed above s region e below)
        ≡ ok (framed above s generated e below)
  unfolding region_lines
  region_lines-framed generated above region below f =
      let whole = two_parts above s region e below in
      let upto = above ++ (s ∷ region) in
      let lines = framed above s region e below in
      let first : index_of s lines ≡ some (length above) =
        index_of-append s above (region ++ (e ∷ below)) f.no_start in
      let second : index_of e lines ≡ some (length upto) =
        rw whole (index_of-append e upto below f.no_end) in
      let later : leb (length upto) (length above) ≡ false =
        ground (arith, length-append above (s ∷ region)) in
      let behind : drop (length upto) lines ≡ e ∷ below = rw whole (drop-append upto (e ∷ below)) in
      rw (first, second)
        (place generated lines (length above) (length upto) later
          ∙ rw (take-framed above s (region ++ (e ∷ below)), behind)
              (ap ok (assembled above s generated e below)))

  -- A file in which the region is replaced was framed by the markers.
  framed-region_lines :
      (generated lines out : List String)
      → region_lines name s e generated lines ≡ ok out
      → (above region below : List String) × (lines ≡ framed above s region e below)
        × IsFramed s e above region
        × (out ≡ framed above s generated e below)
  unfolding region_lines
  framed-region_lines generated lines out h =
      let (start, stop, first, second, later) = markers (index_of s lines) (index_of e lines) h in
      let (above, rest, whole, no_start, size) = index_of-found s lines start first in
      let (upto, below, again, no_end, reach) = index_of-found e lines stop second in
      let (region, shape, tail) =
        cut above s rest upto e below (sym whole ∙ again) (ground (arith, size, reach)) in
      let frame : IsFramed s e above region = record {
        no_start = no_start;
        no_end = rw (← shape) no_end;
      } in
      let same : lines ≡ framed above s region e below = rw tail at whole in
      (
        above,
        region,
        below,
        same,
        frame,
        ok_once (sym h ∙ rw same (region_lines-framed generated above region below frame)),
      )
    where
      markers :
          (a b : Option ℕ)
          → with_region name generated lines a b ≡ ok out
          → (start stop : ℕ) × (a ≡ some start) × (b ≡ some stop) × (leb stop start ≡ false)
      markers none b h = cc
      markers (some start) none h = cc
      markers (some start) (some stop) h = elim (Bool-cases (leb stop start)) [
        | inl late ↦ cc (rw late at h)
        | inr later ↦ (start, stop, refl, refl, later)
      ]

      ok_once : {a b : List String} → Path (Py (List String)) (ok a) (ok b) → a ≡ b
      ok_once h = cc

reframed :
    (s e : String) (above region generated : List String)
    → IsFramed s e above region
    → contains generated e ≡ false
    → IsFramed s e above generated
reframed s e above region generated f h =
    let before : (contains above e || (str_eq s e || contains region e)) ≡ false =
      rw (contains-append above (s ∷ region) e) at f.no_end in
    let (one, two) = neither (contains above e) (str_eq s e) (contains region e) before in
    record {
      no_start = f.no_start;
      no_end = rw (contains-append above (s ∷ generated) e, one, two, h);
    }
  where
    neither : (a b c : Bool) → (a || (b || c)) ≡ false → (a ≡ false) × (b ≡ false)
    neither true b c h = cc
    neither false true c h = cc
    neither false false c h = (refl, refl)

below_lines :
    (region : List String) (e : String) (below : List String)
    → All IsLine (region ++ (e ∷ below))
    → All IsLine (e ∷ below)
below_lines [] e below h = h
below_lines (r ∷ region) e below h = below_lines region e below h.1

framed_lines :
    (above : List String) (s : String) (region generated : List String) (e : String)
    (below : List String)
    → All IsLine generated
    → All IsLine (framed above s region e below)
    → All IsLine (framed above s generated e below)
framed_lines [] s region generated e below g h =
    (h.0, All-append IsLine generated (e ∷ below) g (below_lines region e below h.1))
framed_lines (a ∷ above) s region generated e below g h =
    (h.0, framed_lines above s region generated e below g h.1)

splitlines-framed :
    (above : List String) (s : String) (region : List String) (e : String) (below : List String)
    → All IsLine (framed above s region e below)
    → splitlines (as_text (framed above s region e below)) ≡ framed above s region e below
splitlines-framed [] s region e below h = splitlines-join s (region ++ (e ∷ below)) h
splitlines-framed (a ∷ above) s region e below h =
    splitlines-join a (framed above s region e below) h

module _ (name s e : String) (generated : List String) (text out : String) where
  written_lines :
      replace_generated_region name s e generated text ≡ ok out
      → (lines : List String) × (region_lines name s e generated (splitlines text) ≡ ok lines)
        × (as_text lines ≡ out)
  unfolding replace_generated_region
  written_lines h = unwrap (region_lines name s e generated (splitlines text)) h
    where
      unwrap :
          (r : Py (List String))
          → text_of_lines r ≡ ok out
          → (lines : List String) × (r ≡ ok lines) × (as_text lines ≡ out)
      unwrap (raise x) h = cc
      unwrap (ok lines) h = (lines, refl, once h)
        where
          once : {a b : String} → Path (Py String) (ok a) (ok b) → a ≡ b
          once h = cc

  -- Where a region is replaced by lines without line ends, the lines above the start marker and below
  -- the end marker are those of the text, and the lines between the markers are the generated ones.
  pub replace_generated_region_frame :
      replace_generated_region name s e generated text ≡ ok out
      → All IsLine generated
      → (above region below : List String) × (splitlines text ≡ framed above s region e below)
        × (splitlines out ≡ framed above s generated e below)
        × IsFramed s e above region
  replace_generated_region_frame h plain =
      let (lines, made, shown) = written_lines h in
      let (above, region, below, before, frame, after) =
        framed-region_lines name s e generated (splitlines text) lines made in
      let all_lines : All IsLine (framed above s generated e below) =
        framed_lines above s region generated e below plain
          (rw before at (splitlines-IsLine text)) in
      let read : splitlines (as_text (framed above s generated e below))
          ≡ framed above s generated e below =
        splitlines-framed above s generated e below all_lines in
      (above, region, below, before, rw (← shown, after) read, frame)

  -- Rendering again, with any lines, gives what rendering the first text with them gives, where the
  -- generated lines have no line ends and none is the end marker.
  pub replace_generated_region_overwrites :
      (again : List String)
      → replace_generated_region name s e generated text ≡ ok out
      → All IsLine generated
      → contains generated e ≡ false
      → replace_generated_region name s e again out ≡ replace_generated_region name s e again text
  unfolding replace_generated_region
  replace_generated_region_overwrites again h plain absent =
      let (above, region, below, before, after, frame) = replace_generated_region_frame h plain in
      let frame_after = reframed s e above region generated frame absent in
      rw (before, after)
        (ap text_of_lines (
          region_lines-framed name s e again above generated below frame_after
          ∙ sym (region_lines-framed name s e again above region below frame)))
