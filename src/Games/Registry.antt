-- ===== src/Games/Registry.antt =====
-- The registry of games (src/casino_bot/games/registry.py): a dictionary from identifiers to games,
-- in the order of registration.
use casino_bot.Prelude.{ℕ, Bool, true, false, String, str_eq, List, [], ◌∷◌, if◌then◌else◌, map}
use casino_bot.Python.{Result, ok, err, key_error}
use casino_bot.Settings.{Settings}
use casino_bot.Games.Types.{GameMeta, GameInput, GameResult}
use casino_bot.Games.CoinFlip
use casino_bot.Games.BonusWheel
use text.Mathlib.Text.{is_le}
use Prim.Native.String.{compare as str_compare}

-- The classes that implement the protocol `Game`.
pub data Game : Type 0 where
  coin_flip_game bonus_wheel_game : Game

unfoldable pub game_id : Game → String
game_id coin_flip_game = CoinFlip.coin_flip_game_id
game_id bonus_wheel_game = BonusWheel.bonus_wheel_game_id

unfoldable pub catalog_meta : Game → Settings → GameMeta
catalog_meta coin_flip_game = CoinFlip.catalog_meta
catalog_meta bonus_wheel_game = BonusWheel.catalog_meta

unfoldable pub compute_outcome : Game → Settings → GameInput → ℕ → Result GameResult
compute_outcome coin_flip_game = CoinFlip.compute_outcome
compute_outcome bonus_wheel_game = BonusWheel.compute_outcome

abbrev pub Games : Type 0
Games = List (String × Game)

-- `_GAMES[key] = game`.
put_game : String → Game → Games → Games
put_game key game [] = (key, game) ∷ []
put_game key game ((k, g) ∷ games) =
    if str_eq k key then (k, game) ∷ games else (k, g) ∷ put_game key game games

unfoldable pub register : Game → Games → Games
unfolding put_game game_id
register game games = put_game (game_id game) game games

unfoldable pub get : String → Games → Result Game
get key [] = err (key_error key)
get key ((k, g) ∷ games) = if str_eq k key then ok g else get key games

unfoldable pub is_enabled : String → List String → Bool
is_enabled key [] = false
is_enabled key (k ∷ enabled) = if str_eq k key then true else is_enabled key enabled

unfoldable pub list_games : Settings → Games → List Game
unfolding is_enabled
list_games settings [] = []
list_games settings ((k, g) ∷ games) =
    if is_enabled k settings.games_enabled
    then g ∷ list_games settings games
    else list_games settings games

-- `sorted(…, key=lambda m: m.game_id)`: a stable sort.
insert_meta : GameMeta → List GameMeta → List GameMeta
insert_meta m [] = m ∷ []
insert_meta m (n ∷ metas) =
    if is_le (str_compare m.game_id n.game_id) then m ∷ n ∷ metas else n ∷ insert_meta m metas

sort_metas : List GameMeta → List GameMeta
sort_metas [] = []
sort_metas (m ∷ metas) = insert_meta m (sort_metas metas)

unfoldable pub list_enabled_games : Settings → Games → List GameMeta
unfolding insert_meta sort_metas list_games
list_enabled_games settings games =
    sort_metas (map (λ g. catalog_meta g settings) (list_games settings games))

-- `_GAMES` after `_bootstrap()`.
unfoldable pub bootstrap : Games
unfolding register
bootstrap = register bonus_wheel_game (register coin_flip_game [])
