-- ===== src/TelegramBot/Handlers/History.antt =====
-- The last rounds of a user (src/casino_bot/telegram_bot/handlers.py).
use Prim.Native.String.{String, ◌++◌, slice}
use casino_bot.Prelude.{
  ℕ, zero, suc, ℤ, pos_part, leb, Bool, true, false, ◌&&◌, ◌==◌, str_eq, Option, none, some, List,
  [], ◌∷◌, select, if◌then◌else◌,
}
use casino_bot.Python.{
  Result, ok, int, Json, null, number, text, flag, get, str_ℤ, StorageFloat, zero_float, ratio,
  bind_result, lift, pure, ◌>>=◌,
}
use casino_bot.Python.Decimal.{format_g, utc_text}
use casino_bot.Settings.{Settings}
use casino_bot.Tokens.Format.{format_signed_token_amount}
use casino_bot.Database.{GameRound, User, Db, query}
use casino_bot.Games.Registry.{is_enabled}
use casino_bot.TelegramBot.GameTexts.{rounds_history_header, rounds_empty_message}
use casino_bot.TelegramBot.Texts.{not_linked_balance}
use casino_bot.TelegramBot.Users.{get_user_by_telegram_id}
use casino_bot.TelegramBot.Handlers.Replies.{details_of, is_committed}

-- The filter of the query.
unfoldable pub is_listed : List String → ℕ → GameRound → Bool
is_listed enabled user_id r =
    r.user_id == user_id && (is_enabled r.game_id enabled && is_committed r.status)

-- `a` is not before `b`; a row without a time comes first, as PostgreSQL orders it.
unfoldable pub not_before : Option ℕ → Option ℕ → Bool
not_before none o = true
not_before (some a) none = false
not_before (some a) (some b) = leb b a

-- `order_by(desc(committed_at))`.
unfoldable pub insert_row : GameRound → List GameRound → List GameRound
insert_row r [] = r ∷ []
insert_row r (q ∷ rows) =
    if not_before r.committed_at q.committed_at then r ∷ q ∷ rows else q ∷ insert_row r rows

unfoldable pub newest_first : List GameRound → List GameRound
newest_first [] = []
newest_first (r ∷ rows) = insert_row r (newest_first rows)

-- `limit(n)`.
unfoldable pub take : ℕ → List GameRound → List GameRound
take zero rows = []
take (suc n) [] = []
take (suc n) (r ∷ rows) = r ∷ take n rows

unfoldable pub history_rows : Settings → ℕ → List GameRound → List GameRound
history_rows settings user_id rounds =
    take (pos_part settings.telegram.rounds_history_limit)
      (newest_first (select (is_listed settings.games_enabled user_id) rounds))

-- `str(details.get("outcome", "?"))`.
outcome_word : Option Json → String
outcome_word none = "?"
outcome_word (some null) = "None"
outcome_word (some (number n)) = str_ℤ n
outcome_word (some (text s)) = s
outcome_word (some (flag b)) = if b then "True" else "False"

-- The stored float is printed as the quotient that it is computed from.
float_text : StorageFloat → String
float_text zero_float = "0"
float_text (ratio u s) = format_g u (pos_part s)

time_text : Option ℕ → String
time_text none = "?"
time_text (some t) = utc_text t

-- The identifiers are ASCII.
unfoldable pub history_line : Settings → GameRound → Result String
unfolding outcome_word float_text time_text
history_line settings gr =
    bind_result (format_signed_token_amount (int gr.payout_units) (int settings.token_unit_scale))
      λ delta_s. ok (
        time_text gr.committed_at
        ++ " | "
        ++ (if str_eq gr.game_id "" then "?" else gr.game_id)
        ++ " | bet="
        ++ float_text gr.bet_amount
        ++ " | "
        ++ outcome_word (get "outcome" (details_of gr.details_json))
        ++ " | Δ="
        ++ delta_s
        ++ " tokens | #"
        ++ slice gr.round_id 0 8)

-- The lines, each after a break.
unfoldable pub history_lines : Settings → List GameRound → Result String
unfolding history_line
history_lines settings [] = ok ""
history_lines settings (gr ∷ rows) =
    bind_result (history_line settings gr)
      λ line. bind_result (history_lines settings rows) λ lines. ok ("\n" ++ line ++ lines)

unfoldable pub history_text : Settings → List GameRound → Result String
unfolding history_lines
history_text settings [] = ok rounds_empty_message
history_text settings (gr ∷ rows) =
    bind_result (history_lines settings (gr ∷ rows))
      λ lines. ok (rounds_history_header settings.telegram.rounds_history_limit ++ lines)

-- With no enabled game the query lists nothing, so that one text answers both cases.
unfoldable pub rounds_history_message : Settings → ℕ → Db String
unfolding history_text
rounds_history_message settings user_id = do
  rows ← query (λ t. history_rows settings user_id t.rounds)
  lift (history_text settings rows)

unfoldable pub history_of : Settings → Option User → Db String
history_of settings none = pure not_linked_balance
history_of settings (some user) = rounds_history_message settings user.id

unfoldable pub rounds_history_work : Settings → ℤ → Db String
unfolding history_of
rounds_history_work settings tid = get_user_by_telegram_id tid >>= history_of settings
