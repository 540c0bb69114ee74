-- ===== src/Gateway/Proxy/Capture.antt =====
-- The usage capture of a response: `scanSSE` and `scanJSON` of gateway/internal/proxy/proxy.go. The
-- JSON decoder is outside, as is the scanner: its lines are those that it yields before it stops.
use gridlink.Prelude.{
  Bool, true, false, ◌≡◌, refl, ◌∙◌, not, ◌&&◌, List, [], ◌∷◌, Option, none, some, collect,
  if◌then◌else◌, Bool-cases, inl, inr, length,
}
use gridlink.Bytes.{Bytes, bytes_eq, take, drop}
use gridlink.Gateway.Proxy.{TokenUsage}

-- The bytes of the prefix `data: `, and of the payload that ends a stream.
abbrev pub data_prefix : Bytes
data_prefix = 100 ∷ 97 ∷ 116 ∷ 97 ∷ 58 ∷ 32 ∷ []

abbrev pub done_mark : Bytes
done_mark = 91 ∷ 68 ∷ 79 ∷ 78 ∷ 69 ∷ 93 ∷ []

-- `strings.HasPrefix(line, "data: ")`
unfoldable pub has_data : Bytes → Bool
unfolding bytes_eq take
has_data line = bytes_eq (take line (length data_prefix)) data_prefix

-- `strings.TrimPrefix` of a line that has the prefix.
unfoldable pub payload_of : Bytes → Bytes
unfolding drop
payload_of line = drop line (length data_prefix)

unfoldable pub is_done : Bytes → Bool
unfolding bytes_eq payload_of
is_done line = bytes_eq (payload_of line) done_mark

-- The last of a list.
unfoldable pub last_or {ℓ} : {A : Type ℓ} → Option A → List A → Option A
last_or o [] = o
last_or o (x ∷ xs) = last_or (some x) xs

-- What `json.Unmarshal` makes of a payload: nothing on an error, else the `usage`, if present.
module _ (decode : Bytes → Option (Option TokenUsage)) where
  -- `c.set(*chunk.Usage)`, where there is one.
  unfoldable pub usage_after : Option TokenUsage → Option (Option TokenUsage) → Option TokenUsage
  usage_after got none = got
  usage_after got (some none) = got
  usage_after got (some (some u)) = some u

  -- The loop over the lines, with what is captured so far.
  unfoldable pub scan_sse : List Bytes → Option TokenUsage → Option TokenUsage
  unfolding has_data is_done payload_of usage_after
  scan_sse [] got = got
  scan_sse (line ∷ lines) got =
      let skipped = scan_sse lines got in
      let read = scan_sse lines (usage_after got (decode (payload_of line))) in
      if not (has_data line) then skipped else if is_done line then got else read

  -- `scanJSON`, of a body that is not streamed.
  unfoldable pub scan_json : Bytes → Option TokenUsage → Option TokenUsage
  unfolding usage_after
  scan_json content got = usage_after got (decode content)

  -- The lines before the one that ends the stream.
  unfoldable pub until_done : List Bytes → List Bytes
  unfolding has_data is_done
  until_done [] = []
  until_done (line ∷ lines) =
      let rest = until_done lines in if has_data line && is_done line then [] else line ∷ rest

  -- The usage that a line carries.
  unfoldable pub usage_of : Bytes → Option TokenUsage
  unfolding has_data payload_of usage_after
  usage_of line = if has_data line then usage_after none (decode (payload_of line)) else none

  usage_after_lem :
      (got : Option TokenUsage) (o : Option (Option TokenUsage)) (rest : List TokenUsage)
      → last_or (usage_after got o) rest
        ≡ last_or got (elim (usage_after none o) [ none ↦ rest | some u ↦ u ∷ rest ])
  unfolding usage_after last_or
  usage_after_lem got none rest = refl
  usage_after_lem got (some none) rest = refl
  usage_after_lem got (some (some u)) rest = refl

  usage_of-data :
      (line : Bytes)
      → has_data line ≡ true
      → usage_of line ≡ usage_after none (decode (payload_of line))
  unfolding usage_of
  usage_of-data line t = rw t refl

  usage_of-other : (line : Bytes) → has_data line ≡ false → usage_of line ≡ none
  unfolding usage_of
  usage_of-other line f = rw f refl

  scan_from :
      (lines : List Bytes) (got : Option TokenUsage)
      → scan_sse lines got ≡ last_or got (collect usage_of (until_done lines))
  unfolding scan_sse until_done collect last_or
  scan_from [] got = refl
  scan_from (line ∷ lines) got = elim (Bool-cases (has_data line)) [
    | inr f ↦ rw f (rw (usage_of-other line f, collect) (scan_from lines got))
    | inl t ↦ elim (Bool-cases (is_done line)) [
      | inl d ↦ rw t (rw d refl)
      | inr n ↦ rw t (
          rw n (
            rw (usage_of-data line t, collect)
              (scan_from lines (usage_after got (decode (payload_of line)))
                ∙ usage_after_lem got (decode (payload_of line))
                    (collect usage_of (until_done lines)))))
    ]
  ]

  -- Of a streamed response the usage is captured that the last line with a usage carries, of those
  -- before the one that ends the stream, whichever lines that are no data, do not decode, or carry
  -- none, stand between.
  pub scan_sse-last :
      (lines : List Bytes)
      → scan_sse lines none ≡ last_or none (collect usage_of (until_done lines))
  scan_sse-last lines = scan_from lines none
