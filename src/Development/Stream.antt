-- ===== src/Development/Stream.antt =====
-- brain/development/text_stream.py: chunks of raw text and their bounded history, with the
-- features and segments of a chunk in the children.
pub mod Ring
use toy_brain.Prelude.Outcome.{Result, ◌>>=◌, ◌>>◌, require, ok, i_strm_03, i_strm_02, i_strm_11}
use toy_brain.Prelude.{
  ℕ, Text, List, if◌then◌else◌, Bool, leb, ◌≡◌, length, true, drop, ◌↔◌, ◌++◌, eq_text, arith, ◌∷◌,
  false, [], not,
}
use toy_brain.Development.Ids.{
  is_printable_id, text_is_acceptable, require_bounded_printable, stream_provenance_max_len,
  require_bounded_printable_iff, stream_text_max_len, IsBounded,
}
use toy_brain.Tlica.Profile.{cogito_id}
use toy_brain.Kernel.Io.{has_text}

abbrev pub stream_history_max_chunks : ℕ
stream_history_max_chunks = 256

pub data TextStreamSource : Type 0 where
  operator system probe_echo generated : TextStreamSource

pub record TextStreamChunk : Type 0 where
  pub chunk_id : Text
  pub text : Text
  pub source : TextStreamSource
  pub provenance : Text

pub record TextStreamHistory : Type 0 where
  pub chunks : List TextStreamChunk

module _ (printable is_space : ℕ → Bool) where
  unfoldable pub text_stream_chunk : Text → Text → TextStreamSource → Text → Result TextStreamChunk
  unfolding is_printable_id text_is_acceptable require_bounded_printable cogito_id
  text_stream_chunk chunk_id text source provenance = do
    require (is_printable_id printable is_space chunk_id) i_strm_02
    require (leb (length chunk_id) stream_provenance_max_len) i_strm_02
    require (not (eq_text chunk_id cogito_id)) i_strm_02
    require (has_text text) i_strm_02
    require (text_is_acceptable printable text) i_strm_02
    require (leb (length text) stream_text_max_len) i_strm_11
    require (not (eq_text text cogito_id)) i_strm_02
    require_bounded_printable printable provenance stream_provenance_max_len i_strm_02
    ok (record { chunk_id = chunk_id; text = text; source = source; provenance = provenance })

  -- what the constructor lets through
  pub record IsChunk (c : TextStreamChunk) : Type 0 where
    pub id_given : is_printable_id printable is_space c.chunk_id ≡ true
    pub id_short : leb (length c.chunk_id) stream_provenance_max_len ≡ true
    pub id_free : eq_text c.chunk_id cogito_id ≡ false
    pub text_given : has_text c.text ≡ true
    pub text_accepted : text_is_acceptable printable c.text ≡ true
    pub text_short : leb (length c.text) stream_text_max_len ≡ true
    pub text_free : eq_text c.text cogito_id ≡ false
    pub provenance_bounded : IsBounded printable stream_provenance_max_len c.provenance

  -- The constructor returns the chunk with the given fields exactly when they are within the bounds.
  pub text_stream_chunk_iff :
      (c : TextStreamChunk)
      → (text_stream_chunk c.chunk_id c.text c.source c.provenance ≡ ok c) ↔ IsChunk c
  unfolding text_stream_chunk
  text_stream_chunk_iff c = ground (
    arith,
    require_bounded_printable_iff printable c.provenance stream_provenance_max_len i_strm_02,
  )

unfoldable pub text_stream_history : List TextStreamChunk → Result TextStreamHistory
text_stream_history chunks = do
  require (leb (length chunks) stream_history_max_chunks) i_strm_03
  ok (record { chunks = chunks })

-- `self.chunks[1:]`, when the ring is full
unfoldable pub append_chunk : TextStreamHistory → TextStreamChunk → Result TextStreamHistory
unfolding text_stream_history
append_chunk h chunk =
    let kept =
      if leb stream_history_max_chunks (length h.chunks) then drop 1 h.chunks else h.chunks in
    text_stream_history (kept ++ chunk ∷ [])
