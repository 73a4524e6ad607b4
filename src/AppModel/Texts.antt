-- ===== src/AppModel/Texts.antt =====
-- components/app_model/app_model.c, the texts that the screen shows for a value, in UTF-8.
use esp32_monitor.Base.{ℕ, List, [], ◌∷◌}
use esp32_monitor.AppModel.Records.{
  WeatherCode, weather_unknown, clear, cloudy, rain, storm, snow, fog, AiTaskStatus, ai_idle,
  ai_running, ai_waiting_permission, ai_waiting_input, ai_completed, ai_failed,
}

unfoldable pub weather_text : WeatherCode → List ℕ
weather_text clear = 230 ∷ 153 ∷ 180 ∷ []
weather_text cloudy = 229 ∷ 164 ∷ 154 ∷ 228 ∷ 186 ∷ 145 ∷ []
weather_text rain = 230 ∷ 156 ∷ 137 ∷ 233 ∷ 155 ∷ 168 ∷ []
weather_text storm = 233 ∷ 155 ∷ 183 ∷ 230 ∷ 154 ∷ 180 ∷ []
weather_text snow = 230 ∷ 156 ∷ 137 ∷ 233 ∷ 155 ∷ 170 ∷ []
weather_text fog = 230 ∷ 156 ∷ 137 ∷ 233 ∷ 155 ∷ 190 ∷ []
weather_text weather_unknown = 230 ∷ 156 ∷ 170 ∷ 231 ∷ 159 ∷ 165 ∷ []

unfoldable pub ai_status_text : AiTaskStatus → List ℕ
ai_status_text ai_running = 232 ∷ 191 ∷ 144 ∷ 232 ∷ 161 ∷ 140 ∷ 228 ∷ 184 ∷ 173 ∷ []
ai_status_text ai_waiting_permission =
    231 ∷ 173 ∷ 137 ∷ 229 ∷ 190 ∷ 133 ∷ 230 ∷ 157 ∷ 131 ∷ 233 ∷ 153 ∷ 144 ∷ []
ai_status_text ai_waiting_input =
    231 ∷ 173 ∷ 137 ∷ 229 ∷ 190 ∷ 133 ∷ 232 ∷ 190 ∷ 147 ∷ 229 ∷ 133 ∷ 165 ∷ []
ai_status_text ai_completed = 229 ∷ 183 ∷ 178 ∷ 229 ∷ 174 ∷ 140 ∷ 230 ∷ 136 ∷ 144 ∷ []
ai_status_text ai_failed = 229 ∷ 164 ∷ 177 ∷ 232 ∷ 180 ∷ 165 ∷ []
ai_status_text ai_idle = 231 ∷ 169 ∷ 186 ∷ 233 ∷ 151 ∷ 178 ∷ []
