-- ===== src/Handlers/CommentList.antt =====
-- The list of comments that GetCommentsHandler builds, src/handlers/comment_handlers.cpp.
use temp_task.Prelude.{
  ℕ, zero, suc, ◌/◌, List, [], ◌∷◌, ℤ, pos, negsuc, Str, str, Result, ok, ◌>>=◌,
}
use temp_task.Models.{Reply, Comment, TimePoint}
use temp_task.Json.{JsonLib, PathStep, element, member}

abbrev negated : ℕ → ℤ
negated zero = pos 0
negated (suc n) = negsuc n

-- std::chrono::system_clock::to_time_t: whole seconds, towards zero.
unfoldable to_time_t : TimePoint → ℤ
to_time_t (pos n) = pos (n / 1000000000)
to_time_t (negsuc n) = negated (suc n / 1000000000)

module _ (json : JsonLib) where
  open json use {Value, of_string, of_int, null, assign_at}

  unfoldable add_reply_entry : ℕ → ℕ → Reply → Value → Result Value
  unfolding to_time_t
  add_reply_entry i j reply result =
      let at : Str → List PathStep =
        λ k. element i ∷ member (str "replies") ∷ element j ∷ member k ∷ [] in
      assign_at (at (str "author")) (of_string reply.author) result
      >>= assign_at (at (str "text")) (of_string reply.text)
      >>= assign_at (at (str "created_at")) (of_int (to_time_t reply.created_at))

  -- The inner loop from the reply j on.
  unfoldable add_reply_entries : ℕ → ℕ → List Reply → Value → Result Value
  unfolding add_reply_entry
  add_reply_entries i j [] result = ok result
  add_reply_entries i j (reply ∷ replies) result =
      add_reply_entry i j reply result >>= add_reply_entries i (suc j) replies

  unfoldable add_comment_entry : ℕ → Comment → Value → Result Value
  unfolding add_reply_entries to_time_t
  add_comment_entry i comment result =
      let at : Str → List PathStep = λ k. element i ∷ member k ∷ [] in
      assign_at (at (str "id")) (of_string comment.id) result
      >>= assign_at (at (str "author")) (of_string comment.author)
      >>= assign_at (at (str "text")) (of_string comment.text)
      >>= assign_at (at (str "created_at")) (of_int (to_time_t comment.created_at))
      >>= add_reply_entries i 0 comment.replies

  -- The outer loop from the comment i on.
  unfoldable pub add_comment_entries : ℕ → List Comment → Value → Result Value
  unfolding add_comment_entry
  add_comment_entries i [] result = ok result
  add_comment_entries i (comment ∷ comments) result =
      add_comment_entry i comment result >>= add_comment_entries (suc i) comments

  -- What the builder holds after both loops; it is null where there are no comments.
  unfoldable pub comments_json : List Comment → Result Value
  unfolding add_comment_entries
  comments_json comments = add_comment_entries 0 comments null
